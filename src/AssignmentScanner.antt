-- ===== src/AssignmentScanner.antt =====
-- core/domain/services/assignment_scanner_service.py: `AssignmentScannerService`.
pub mod Tokens
pub mod Matches
pub mod Mask
pub mod Missing
pub mod Scan
