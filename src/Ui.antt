-- ===== src/Ui.antt =====
-- docsifer/ui/gradio_app.py: the tables of statistics, and a conversion.
pub mod Tables
pub mod Forms
pub mod Conversion
