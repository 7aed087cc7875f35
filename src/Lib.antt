-- ===== src/Lib.antt =====
-- Verification library of WikiMind, the wiki that compiles a user's sources into linked articles
-- with language models.
--
-- The program is a FastAPI service: routes (src/wikimind/api/routes) call services
-- (src/wikimind/services) and the compilation engine (src/wikimind/engine), which read and write
-- rows of one SQL database and call language models. The parts that are modelled, each in the file
-- of its name and the files in the folder beside it:
--
-- - Prelude: what all parts share. Prelude/Tests has the tests and the conditional, Prelude/Lists
--   lists over native numbers, Prelude/Results the exceptions of src/wikimind/errors.py, results
--   and the actions that change a state and may raise (with the rollback of `get_session` in
--   src/wikimind/database.py), Prelude/Tables a database table, or a dictionary, as the list of its
--   rows, Prelude/Texts the order of texts, Prelude/Decimals `str` of a number,
--   Prelude/Integers Python's int, Prelude/Sorting `order_by`, Prelude/Lookups the queries for one
--   row, and Prelude/Pigeonhole a bound on distinct identifiers.
-- - Accounts: the rows of src/wikimind/models/tables/billing.py and of users.
-- - Billing: `apply_entitlement` (src/wikimind/services/billing.py) and `get_effective_plan`
--   (src/wikimind/services/quota.py). Billing/Webhook is the Lemon Squeezy webhook of
--   src/wikimind/api/routes/billing.py, from the signature to the answer.
-- - Quota: the checks of src/wikimind/services/quota.py and the URL ingest route of
--   src/wikimind/api/routes/ingest.py around them.
-- - Sharing: the four methods of `SharingService` in src/wikimind/services/sharing.py.
-- - Spans: `persist_spans` and `reanchor_spans` of src/wikimind/ingest/spans.py.
-- - Router: the candidate order, the keys, the cache of clients and the fallback loop of
--   src/wikimind/engine/llm_router.py. Router/Plans is `plan_aware_complete` of
--   src/wikimind/services/plan_routing.py, over Quota and Billing; Router/Budget is
--   `_check_budget` with its flags, its spend cache and the shared Redis.
-- - Taxonomy: `rebuild_taxonomy` and `update_article_counts` of src/wikimind/services/taxonomy.py.
-- - Wikilinks: src/wikimind/engine/wikilink_resolver.py.
-- - Backlinks: src/wikimind/engine/backlink_enforcer.py.
-- - Confidence: src/wikimind/engine/confidence.py.
-- - Chunking: `_split_by_token_window` of src/wikimind/ingest/utils.py; Chunking/Paragraphs is
--   `_split_by_paragraphs` and Chunking/Headings `chunk_text`.
-- - Tags: `TagService` of src/wikimind/services/tags.py. Searches: `SavedSearchService` of
--   src/wikimind/services/saved_searches.py, over the tag tables of Tags.
-- - Slugs: `generate_unique_slug` of src/wikimind/slug.py.
-- - Contradictions: `ContradictionService` of src/wikimind/services/contradiction.py.
-- - Crystallization: `crystallize_conversation` of src/wikimind/services/crystallization.py.
-- - Conversations: `answer` of src/wikimind/engine/qa_agent.py and the threads and forks of
--   src/wikimind/services/query.py. Conversations/Markdown and Conversations/Headings are
--   src/wikimind/engine/conversation_serializer.py, Conversations/Filing is `_file_back_thread`,
--   `file_back_conversation` and `export_conversation`.
-- - Users: `UserService` of src/wikimind/services/user.py: Users/Provisioning the accounts,
--   Users/MagicLinks the links, Users/Deletion `delete_account`, over the tables that it clears. ApiKeys: the users' provider keys of
--   src/wikimind/services/api_keys.py.
-- - Drafts: `DraftService` of src/wikimind/services/draft.py. Jobs: `compile_source` of
--   src/wikimind/jobs/worker.py, over the drafts.
-- - Sweep: src/wikimind/jobs/sweep.py, over Wikilinks and the link rows of Backlinks.
-- - Compiler: `save_article` of src/wikimind/engine/compiler.py, over Slugs, Wikilinks and the claim
--   scores of Confidence.
--
-- How they interact: the webhook writes the user's plan through `entitle`, the quotas and the
-- routing read it back through `get_effective_plan`; the routing asks the quota for the daily spend
-- and then the router, whose calls end in a budget check. A compilation job saves an article or
-- makes a draft, whose approval saves the article; the saving is an interface (`Services` of Drafts)
-- to both, and Compiler models it over its own tables. Saving and crystallizing take their slugs
-- from Slugs; saving and the sweep resolve their links with Wikilinks.
--
-- How state is modelled: a handler is a function from the tables it uses to its result and the
-- tables that it leaves. An exception is a value; a request that fails is rolled back where the
-- code's session does so. Each request runs alone: the transactions' isolation and the locks of the
-- database are taken for granted. A compilation job works in several sessions, and what other
-- processes commit between them, and what the database raises in them, the statements quantify
-- over. Elsewhere the database is taken not to fail but where a handler's text says so. Times are whole
-- numbers (microseconds, seconds, days or months, as the file says), money is whole cents or
-- micro-dollars, and the floats of the scores are exact fractions. Python's `str` is a string, and
-- its tests for truth are written out.
--
-- Fuel: the `while` loop of `_has_cycles` gets two steps more than the mapping has names; it
-- visits distinct names, all but the last with an entry, so that this is enough. The one of
-- `_split_by_token_window` gets one step more than the text has characters, and each window takes
-- at least one. The search for a slug makes as many attempts as the code allows, which may fail; one
-- more than the user's articles are enough. The loop over a conversation's parents gets one step
-- more than there are conversations, and visits each at most once. Every other loop is recursion on
-- the list that it goes through.
--
-- What is given: code of others is an argument. HMAC, SHA-256, base64, PBKDF2, Fernet and the JSON parser, the billing
-- vendor's client, the article store and the Markdown renderer, the providers' answers, `slugify`,
-- and the string functions `strip`, `lower` and `normalize_title` are functions or values that
-- the statements quantify over, as are the sections and paragraphs that regular expressions cut and
-- the answers of the compiler and of the language model; the brackets of a file are given as such;
-- nothing is assumed of them but what a statement says.
--
-- Not modelled: logging, metrics and progress messages; the network, file and vendor calls; prompts;
-- the regular expressions of `chunk_text` and of the sweep; the compilation itself, the confidence
-- and the side effects of a saved article, the concept and synthesis compilers, the retrieval
-- of question answering and the filing of single answers, search, the linter and the other jobs; the cleaning of
-- a model's JSON; the upsert of concepts; the other routes; the command line and the front ends.
pub mod Drafts
pub mod Prelude
pub mod Accounts
pub mod ApiKeys
pub mod Billing
pub mod Compiler
pub mod Contradictions
pub mod Conversations
pub mod Jobs
pub mod Crystallization
pub mod Quota
pub mod Searches
pub mod Sharing
pub mod Slugs
pub mod Spans
pub mod Router
pub mod Sweep
pub mod Tags
pub mod Users
pub mod Taxonomy
pub mod Wikilinks
pub mod Backlinks
pub mod Confidence
pub mod Chunking
