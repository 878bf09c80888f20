-- ===== src/Store.antt =====
-- The SQLAlchemy session over one table, as knowledge-hub/app/db.py configures it
-- (`sessionmaker(bind=engine, autoflush=False, autocommit=False)`).
-- A row is what the database holds (`stored`, nothing yet for an object that was only added) and
-- the session's object for it (`live`). A query tests the stored columns and returns the objects,
-- and only `flush` and `commit` write the objects back: with `autoflush=False` a query does not
-- see what the session has changed since.
pub mod Table
pub mod Laws
pub mod Order
pub mod Keyed
