-- ===== src/Models.antt =====
-- knowledge-hub/app/models.py: the mapped classes, and the session over all their tables.
-- An instant is a number of microseconds. A status column is a string whose values are a
-- closed set in the code that writes it: a data type with those values. A JSON column is the value
-- that `json.loads` reads back from it (`Payload`), since the code only writes what `json.dumps`
-- printed; the vector column is its JSON text, as SQLite stores it.
pub mod Json
pub mod Status
pub mod Rows
pub mod Support
pub mod Session
