-- ===== src/Printer.antt =====
-- src/htaccess_printer.c: the union's members as it reads them (Members), the line of a directive
-- (Leaf), and the printer of a list (Document).
pub mod Members
pub mod Leaf
pub mod Document
pub mod Defined
