-- ===== src/Import.antt =====
-- The import of a file: backend/app/services/import_service.py, and
-- backend/app/utils/excel_reader.py, which reads the rows of a sheet.
pub mod Text
pub mod Cells
pub mod Rows
pub mod Columns
pub mod File
pub mod Reader
pub mod Sound
pub mod Upload
pub mod Unique
pub mod Prepared
pub mod Tests
