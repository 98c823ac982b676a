-- ===== src/Lib.antt =====
-- A model of neddit, a front end for Reddit, and what holds of it.
--
-- The program's parts. A search or a custom feed is written in a query language, which
-- crates/api/src/search/mod.rs lexes, parses and evaluates on records with a three-valued logic.
-- A search is compiled to an upstream query by crates/api/src/search/engine.rs, and a feed to a
-- list of sources by crates/api/src/feed/mod.rs; the posts that Reddit gives are then filtered by
-- the same expression. Responses and snapshots of feeds are kept in the cache of
-- crates/api/src/storage.rs, which also keeps the definitions behind shortlinks. Every request
-- to Reddit takes a lease of credentials from the OAuth manager of
-- crates/api/src/client/oauth/manager.rs, follows redirects and reads a bounded body in
-- crates/api/src/client.rs. The pages of a search are made by the sessions of
-- crates/api/src/search/engine/session.rs, which a cursor continues. The URLs of media are signed
-- and checked by crates/api/src/media.rs.
--
-- The files.
--   Prelude     numbers, lists, texts as code points with UTF-8 lengths, sorting, integers
--   Crates      the third-party functions on texts, as a parameter
--   Search      search/mod.rs: Syntax (`Expr`, `Field`, `Diagnostic`), Truth, Record, Lexer
--               (`lex`), Scalar (`Parser::scalar`, `field_name`), Parser (`parse`), Eval
--               (`Expr::evaluate`); search/engine.rs: Request, Scope (`plan`, `cover`,
--               `required`, `names`, `contradictory`), Thing (`PublicThing`, `record`), Page;
--               search/engine/session.rs: Session (`Collection`, `fetch`), with Judge
--               (`comment_window`, `visibility`), Hydrate (`hydrate`, `evaluate`), Advance
--               (`advance`), Cursor, and Store (`Sessions::execute_before`); engine.rs: Service
--               (`RedditService::search_ql`, and `Source` for it)
--   Feed        feed/mod.rs: Sources (`SourcePlan`, `plan`), Collect (`collect`), Page
--               (`cached_feed`, `slice_page`); feed/ranking.rs: Ranking (`Expr`,
--               `Program::evaluate`), with the parser in its Reader and Grammar;
--               feed/shortlinks.rs: Definition
--   Storage     storage.rs: Cache (`put`, `get`, `json`, the maintenance task), Shortlinks
--               (`save_with`, `get`, `validate`)
--   Oauth       client/oauth/manager.rs: the `State` and the loop of `run_manager`
--   Client      client.rs: Path (`with_raw_json`, `cache_key`, `bounded_range`), Request
--               (`request`), Fetch (`fetch_json`, `html`), Cached (`json`), Proxy
--   Media       media.rs: Domains (`HostPattern`, `DomainSet`), Signer (`MediaSigner`)
-- The children of these modules hold the proofs, and the modules Examples hold concrete runs.
--
-- How the code is modelled. A text is its list of code points, and positions are byte offsets as
-- in the source. A diagnostic keeps its code and its span, not its message. The state of the
-- parser is passed on explicitly, and its mutual recursion is one function of a call on fuel; fuel is
-- twice the number of tokens and two, and the theorem on `parse` shows that it never runs out. So it
-- is with the ranking expressions, with eight for each character and seven.
-- The lexer has fuel for each character, the loop that evicts rows has fuel for each row, and the
-- loop over the pages of a source for each post of its quota; the theorems on them show that it is
-- enough. A table of SQLite is a list of rows, and its triggers are written out; a job of the
-- database is one step, since one thread runs them, and a transaction that fails leaves the table
-- as it was. The OAuth manager is a step function on the events of its `select!`, and a run is a
-- sequence of enabled steps. Each reading of the clock is an argument.
-- A call on the table of search sessions is one step, since the lock of a session orders its
-- calls; what the service answers, by the number of the call, is an argument, and so are the ids,
-- the permits, and the `await` at which a request is given up. An `f64` that is only compared is its
-- place in the order of `total_cmp`. The rounds of a page are counted down from `MAX_PAGES`, and
-- the redirects from `MAX_REDDIT_REDIRECTS`, as in the source. An operation of the client gives its
-- result with the calls that it has made; the crates and the network are arguments.
--
-- What is not modelled. The network, the file system and the web framework; serde's formats; the
-- arithmetic of floating point, which is a parameter; the rewriting of texts and manifests of
-- crates/api/src/media.rs and the videos of crates/api/src/media/video.rs; the sort by rank of
-- `build_feed`; the request building of crates/api/src/service; the pages of crates/web.
pub mod Prelude
pub mod Client
pub mod Crates
pub mod Search
pub mod Feed
pub mod Media
pub mod Oauth
pub mod Storage
