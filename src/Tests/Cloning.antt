-- ===== src/Tests/Cloning.antt =====
-- The cloner of src/astclone on a small program.
