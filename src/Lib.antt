-- ===== src/Lib.antt =====
-- Verification of the TypeScript core of paraphe: the code that the command-line tools and the web
-- interface share, and the store of the interface without a server (browser mode).
--
-- The tools (outils/) cross public data and write CSV files; the interface (web/src/) reads one of
-- these files, keeps the contacts with the mayors in IndexedDB, and exports and imports backups.
-- Both use noyau/: the CSV format, the comparison of texts and the engine of messages.
--
-- Csv.antt models noyau/csv.ts: `parse_rows` is `parseRows`, with one `step` per round of its loop
-- and the variables of the loop in `Scan`; `parse_records`, `escape_field` and `write_csv` are the
-- functions of these names. A separator is one character. A `Record` is its list of properties, in
-- the order of their first assignment; keys are not names that JavaScript treats specially
-- (`__proto__`) or orders (integers).
--
-- Texte/Difflib.antt models noyau/texte.ts from the line `difflib` on: `index_of_b`,
-- `longest_match`, `matched`, `ratio`, `quick_ratio` and `closest_match`. A `Map` is an
-- association list, `push` and `pop` work on the head of a list. The work list of `matched` runs
-- on fuel 2 * length a + 2, since every window that is pushed is shorter than the one it comes
-- from and the two are disjoint. Scores are exact quotients: floating-point division rounds
-- correctly, so two quotients of numbers below 2 ^ 26 compare as their floating-point values do.
--
-- Texte/Controls.antt models `stripControls`, `isControl` and their table; `clean` of
-- noyau/messages.ts has the same body. Messages.antt and its children model noyau/messages.ts:
-- Messages/Words the names and endorsements in prose, Messages/Commune `elidedCommune`,
-- Messages/Rank what is known of a mayor, Messages/Fields `fields`, Messages/Render `render`,
-- Messages/Engine the three channels of `createEngine`, Messages/Templates `mergeTemplates` and
-- Messages/Address the postal and the email addresses, Messages/Unfilled `unfilledKeys`,
-- Messages/Refusal `placeholderNames` and `invalidTemplate`, of which the message is left out. A
-- mayor, a campaign and a set of templates are records of the Csv.antt kind; null and undefined are
-- a missing key. What depends on the character tables of the language (`\p{L}`, `toUpperCase`,
-- `toLowerCase`) is the parameter `Unicode`. `MissingField` is `none` where fields are made,
-- `InvalidTemplate` is `none` where a template is filled, and both are a case of `Attempt` in a
-- channel. `elidedCommune` calls itself
-- on a shorter name, so its fuel is the length of the name.
--
-- Store.antt and its children model web/src/db.ts. An object store of IndexedDB is the parameter
-- `ObjectStore`, with the documented behaviour of `get`, `put`, `clear` and `getAll` as laws,
-- which Store/ListStore fulfils. One read-write transaction is one function on the state of the
-- store, so an interleaving of several tabs is a list of actions. An import is several transactions:
-- what other tabs do between them is the argument `Elsewhere`. A `Date` is what stands under
-- `updated_at`, which an import does not test; how the language compares values that are no texts is
-- the parameter `other_ge`. Store/Card has the transactions
-- on a card, Store/Backup the export, the import and the erasure of everything, Store/Upload the
-- list of mayors and the settings. The time is an argument wherever the code reads the clock. An
-- error that is thrown is `none`.
--
-- A text is the list of its character codes. Comparison of texts is by code, which is the order of
-- JavaScript as long as no character lies above U+FFFF.
--
-- Texte/Norm.antt models `norm`, `tight`, `collapse`, `communeLabel` and `sexFromTitle` of
-- noyau/texte.ts; the normal form of Unicode and its marks belong to the parameter `Unicode`.
-- Crossing.antt and its children model outils/: Crossing/Entities the records of the sources,
-- Crossing/Identity and Crossing/Dedupe outils/matching.ts, Crossing/Sources and Crossing/Directory
-- outils/sources.ts, Crossing/Persons, Crossing/Match, Crossing/Cross, Crossing/Rows and
-- Crossing/Files outils/build.ts: the aggregation by person, the matching of one endorser, the loop
-- and its composition with the deduplication, the rows and the texts of the four files. A `Map` is
-- the list of its entries, a `Set` that of its members; a key that `JSON.stringify` makes of five
-- texts is the list of them. `JSON.parse` is the parameter `Json`. An error, also one of `ratio`
-- within a comparison of names, is `none`. A cell that a row is too short for is the empty text.
-- Mailing.antt models outils/messages-masse.ts with its four lists as state; the mailing stops with
-- `none`, and the text of a `MissingField` is left out.
-- Prefill.antt models web/src/prefill.ts. A value of unknown type is a `Value`, whose properties are
-- a function of their names; `Page` is what the code reads of the document and of its address. The
-- print of a value that is no text is the parameter `print`. Prefill/Hosts has a reader of its own
-- for the host of an address.
--
-- Not modelled: the report and the console of the crossing, the screens (React), the requests
-- of the interface (fetch), the opening of the database and its versions (IndexedDB), the server (Go), the
-- reading and writing of files, the configuration, sample data.
pub mod Common
pub mod Crossing
pub mod Csv
pub mod Texte
pub mod Store
pub mod Messages
pub mod Mailing
pub mod Prefill
