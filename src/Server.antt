-- ===== src/Server.antt =====
-- main.go, the HTTP handlers of `main`, and `serverAddr`. The mux sends a request to the handler of its
-- exact path, and to the last one where there is none. The decoder of JSON and the file server are
-- arguments, as is what the store and the CSV file need. A handler that panics is an `Outcome`.
pub mod Writes
mod Tests
use sharded_blockchain_dashb.Base.{ℕ, Option, none, some, List, ◌++◌, if◌then◌else◌, not}
use sharded_blockchain_dashb.Base.Keyed.{Bytes, bytes_eq, bytes_is_eq}
use sharded_blockchain_dashb.Base.Dict.{Dict}
use sharded_blockchain_dashb.Base.Text.{codes}
use sharded_blockchain_dashb.Base.Int.{ℤ}
use sharded_blockchain_dashb.Base.Outcome.{Outcome, ret, ◌>>=◌}
use sharded_blockchain_dashb.Backend.{Backend}
use sharded_blockchain_dashb.Base.Space.{trim_space}
use sharded_blockchain_dashb.Dashboard.{to_lower}
use sharded_blockchain_dashb.Dashboard.Names.{atoi}
use sharded_blockchain_dashb.Dashboard.Users.{has_prefix}
use sharded_blockchain_dashb.Dashboard.Store.{ChainStore, ShardView, StatView, snapshot}
use sharded_blockchain_dashb.Dashboard.Transactions.{TransactionView, query_block_transactions}
use sharded_blockchain_dashb.Submission.{
  Request, Answer, missing_field, bad_value, header_error, accepted, is_empty, value_at,
  append_transaction_csv,
}

-- `arguments` has the first value of each name in the URL's query
pub record HttpRequest : Type 0 where
  pub method : Bytes
  pub path : Bytes
  pub arguments : Dict Bytes Bytes
  pub body : Bytes

-- `http_error` is `http.Error`, `failure` is `writeError`, and the others are pages
pub data HttpResponse : Type 0 where
  stat_page : StatView → HttpResponse
  shards_page : List ShardView → HttpResponse
  transactions_page : ℤ → Bytes → List TransactionView → HttpResponse
  accepted_page : ℤ → Bytes → HttpResponse
  http_error : ℕ → Bytes → HttpResponse
  failure : Answer → HttpResponse
  index_page : HttpResponse
  static_page : Bytes → HttpResponse

abbrev pub stat_path : Bytes
stat_path = codes "/api/stat"

abbrev pub shards_path : Bytes
shards_path = codes "/api/shards"

abbrev pub blocks_path : Bytes
blocks_path = codes "/api/blocks"

abbrev pub block_transactions_path : Bytes
block_transactions_path = codes "/api/block-transactions"

abbrev pub transactions_path : Bytes
transactions_path = codes "/api/transactions"

abbrev pub index_path : Bytes
index_path = codes "/index.html"

abbrev pub post : Bytes
post = codes "POST"

abbrev pub bad_request : ℕ
bad_request = 400

abbrev pub not_allowed : ℕ
not_allowed = 405

-- what the handler of a submission writes
abbrev pub answer_page : Answer → HttpResponse
answer_page (accepted now hash) = accepted_page now hash
answer_page missing_field = failure missing_field
answer_page bad_value = failure bad_value
answer_page (header_error err) = failure (header_error err)

module _ (lib : Backend) (disk : Bytes → lib.Bolt) where
  abbrev pub serve_transactions_of : ChainStore → Bytes → Option ℤ → Outcome HttpResponse
  serve_transactions_of store hash none =
      ret (http_error bad_request (codes "{\"error\":\"invalid shard\"}"))
  serve_transactions_of store hash (some shard_id) =
      if is_empty hash
      then ret (http_error bad_request (codes "{\"error\":\"missing hash\"}"))
      else (query_block_transactions lib disk store shard_id hash >>= λ transactions.
          ret (transactions_page shard_id hash transactions))

  unfoldable pub serve_block_transactions : ChainStore → HttpRequest → Outcome HttpResponse
  serve_block_transactions store req =
      serve_transactions_of store (trim_space (to_lower (value_at req.arguments (codes "hash"))))
        (atoi (trim_space (value_at req.arguments (codes "shard"))))

-- the file after a submission, and the response
module _ (sha256 : Bytes → Bytes) (decode_request : Bytes → Option Request) (now : ℤ) where
  abbrev pub submit_decoded : Option Bytes → Option Request → Option Bytes × HttpResponse
  submit_decoded file none =
      (file, http_error bad_request (codes "{\"error\":\"invalid request body\"}"))
  submit_decoded file (some req) =
      let (file', answer) = append_transaction_csv sha256 now file req in
      (file', answer_page answer)

  unfoldable pub serve_submission : Option Bytes → HttpRequest → Option Bytes × HttpResponse
  serve_submission file req =
      if not (bytes_eq req.method post)
      then (file, http_error not_allowed (codes "{\"error\":\"method not allowed\"}"))
      else submit_decoded file (decode_request req.body)

-- the handlers that leave the file, by their paths
unfoldable pub serve_page :
    (lib : Backend)
    → (Bytes → lib.Bolt)
    → (Bytes → HttpResponse)
    → ChainStore
    → HttpRequest
    → Outcome HttpResponse
serve_page lib disk static_files store req =
    if bytes_eq req.path stat_path
    then ret (stat_page (snapshot store).0)
    else if bytes_eq req.path shards_path
    then ret (shards_page (snapshot store).1)
    else if bytes_eq req.path blocks_path
    then ret (shards_page (snapshot store).1)
    else if bytes_eq req.path block_transactions_path
    then serve_block_transactions lib disk store req
    else if bytes_eq req.path index_path
    then ret index_page
    else if bytes_eq req.path (codes "/")
    then ret index_page
    else ret (static_files req.path)

unfoldable pub serve :
    (lib : Backend)
    → (Bytes → lib.Bolt)
    → (Bytes → HttpResponse)
    → (Bytes → Bytes)
    → (Bytes → Option Request)
    → ChainStore
    → ℤ
    → Option Bytes
    → HttpRequest
    → Outcome (Option Bytes × HttpResponse)
unfolding serve_page serve_submission
serve lib disk static_files sha256 decode_request store now file req =
    if bytes_eq req.path transactions_path
    then ret (serve_submission sha256 decode_request now file req)
    else (serve_page lib disk static_files store req >>= λ page. ret (file, page))

abbrev pub with_colon : Bytes → Bytes
with_colon port = if has_prefix port (codes ":") then port else codes ":" ++ port

-- `serverAddr` where `PORT` is `port`
unfoldable pub server_addr : Bytes → Bytes
server_addr port = with_colon (if is_empty (trim_space port) then codes "8080" else trim_space port)
