-- ===== src/Issue.antt =====
-- `IssueModel` of src/MeMo/IssueModel.cpp, one part of it.
pub mod Lsu
