-- ===== src/Editing/Model.antt =====
-- editing/model.py, without the text of the diff that a proposal shows.
use simple_ai_agent.Common.{ℕ, Bool, Option, List}
use simple_ai_agent.Editing.Text.{Content, FileEdit}
use simple_ai_agent.Editing.Disk.{FilePath}

pub data EditStatus : Type 0 where
  pending applied rejected : EditStatus

pub data EditKind : Type 0 where
  edit create move delete copy : EditKind

pub record PendingEdit : Type 0 where
  pub id : ℕ
  pub path : FilePath
  pub original_content : Content
  pub new_content : Content
  pub edits : List FileEdit
  pub status : EditStatus
  pub kind : EditKind
  pub destination_path : Option FilePath
  pub recursive : Bool
  pub force : Bool
  pub is_directory : Bool
