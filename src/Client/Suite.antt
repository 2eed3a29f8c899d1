-- ===== src/Client/Suite.antt =====
-- client/tests: the repository's own test cases, run on the model. A case is the conjunction of what
-- it checks, on a database with new tables.
mod MessageCases
mod ContactCases
mod UserCases
mod ConversationCases
mod CodecCases
