-- ===== src/Client/Db.antt =====
-- client/src/storage: the tables of DatabaseManager and the SQL statements of the four repositories.
-- sqlite3 is not part of the sources. A table is the list of its rows in the order of their ids,
-- and each statement is read by the documented meaning of its SQL; the text that is bound has no
-- NUL, at which c_str would end it. A failing statement changes nothing, and its error is ignored.
pub mod Tables
pub mod Users
pub mod Contacts
pub mod Messages
pub mod Conversations
pub mod Statements
pub mod Keys
