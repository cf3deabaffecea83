-- ===== src/Parser.antt =====
-- src/htaccess_parser.c: the scanning of a line (Scan), the parsers of the arguments of each
-- directive (Fields to Rewrite), the line dispatcher (Line), the tags of the containers (Tags), the
-- parser of a file with its open blocks (State, Blocks, Sections, Document); what a line yields
-- (Yields, Typed), the invariant of the file's parser (Valid, Kept, Closed, Whole), and what is
-- printed and read back (Lines to Steps for the lines of a file, RoundTrip for whole files, Words,
-- Families and Leaves for single directives).
pub mod Scan
pub mod Fields
pub mod Header
pub mod Values
pub mod Switches
pub mod Options
pub mod Guards
pub mod Rewrite
pub mod Line
pub mod Tags
pub mod State
pub mod Blocks
pub mod Sections
pub mod Document
pub mod Yields
pub mod Typed
pub mod Valid
pub mod Kept
pub mod Closed
pub mod Whole
pub mod Lines
pub mod Untagged
pub mod Nesting
pub mod Steps
pub mod ModuleTag
pub mod RoundTrip
pub mod Words
pub mod Families
pub mod Leaves
