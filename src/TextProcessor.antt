-- ===== src/TextProcessor.antt =====
-- core/domain/services/text_processor.py, a child module for each group of methods.
pub mod Tables
pub mod Patterns
pub mod Forms
pub mod Admission
pub mod Tokens
