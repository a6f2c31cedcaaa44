-- ===== src/Llm.antt =====
-- The llm package: requests to model providers.
pub mod Flex
mod Tests
