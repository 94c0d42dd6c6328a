-- ===== src/Server/Tests.antt =====
-- Requests to the dashboard's server over the sample backend.
use sharded_blockchain_dashb.Base.{◌≡◌, ◌⊎◌, refl, Option, none, some, List, [], ◌∷◌, ◌++◌, take}
use sharded_blockchain_dashb.Base.Keyed.{Bytes, bytes_eq}
use sharded_blockchain_dashb.Base.Dict.{lookup}
use sharded_blockchain_dashb.Base.Text.{codes}
use sharded_blockchain_dashb.Base.Int.{pos}
use sharded_blockchain_dashb.Base.Outcome.{ret}
use sharded_blockchain_dashb.Backend.Sample.{sample}
use sharded_blockchain_dashb.Query.Tests.{disk}
use sharded_blockchain_dashb.Base.Space.{trim_left, trim_right}
use sharded_blockchain_dashb.Dashboard.Names.{atoi, digits_fold}
use sharded_blockchain_dashb.Dashboard.Users.{has_prefix}
use sharded_blockchain_dashb.Dashboard.Store.{ChainStore}
use sharded_blockchain_dashb.Submission.{Request, is_integer}
use sharded_blockchain_dashb.Submission.Rows.{Submitted, row_hash, submit_all}
use sharded_blockchain_dashb.Server.{
  HttpRequest, static_page, http_error, accepted_page, transactions_path, block_transactions_path,
  post, bad_request, not_allowed, serve, serve_page, serve_submission, serve_block_transactions,
  server_addr,
}
use sharded_blockchain_dashb.Server.Writes.{Submits, serve-file, serve-submit_all}

abbrev digest : Bytes → Bytes
digest s = take 2 s

abbrev store : ChainStore
store = record { size_bytes = 0; user_count = 0; shards = [] }

abbrev pays : Request
pays = record { sender = codes "a"; recipient = codes "b"; value = codes "5" }

-- every body is this request
abbrev decode : Bytes → Option Request
decode body = some pays

abbrev posted : HttpRequest
posted = record { method = post; path = transactions_path; arguments = []; body = codes "{}" }

abbrev got : HttpRequest
got = record { method = codes "GET"; path = transactions_path; arguments = []; body = [] }

abbrev asked : HttpRequest
asked = record {
  method = codes "GET";
  path = block_transactions_path;
  arguments = (codes "shard", codes " 0") ∷ [];
  body = [];
}

abbrev earlier : List Submitted
earlier = record { time = pos 3; request = pays } ∷ []

got-kept :
    serve sample disk static_page digest decode store (pos 7) none got
    ≡ ret (none, http_error not_allowed (codes "{\"error\":\"method not allowed\"}"))
unfolding serve serve_submission bytes_eq
got-kept = refl

asked-refused :
    serve sample disk static_page digest decode store (pos 7) none asked
    ≡ ret (none, http_error bad_request (codes "{\"error\":\"missing hash\"}"))
unfolding serve serve_page serve_block_transactions bytes_eq lookup trim_left trim_right atoi
    digits_fold
asked-refused = refl

abbrev now_pays : Submitted
now_pays = record { time = pos 7; request = pays }

abbrev after : Option Bytes
after = submit_all digest none (now_pays ∷ [])

posted_run :
    serve sample disk static_page digest decode store (pos 7) none posted
    ≡ ret (after, accepted_page (pos 7) (row_hash digest now_pays))
unfolding trim_left trim_right is_integer
posted_run =
    serve-submit_all digest decode sample disk static_page store [] now_pays posted refl refl refl
      refl

serve-file_example : (after ≡ none) ⊎ Submits decode posted
serve-file_example =
    serve-file digest decode sample disk static_page store (pos 7) none after posted
      (accepted_page (pos 7) (row_hash digest now_pays)) posted_run

serve-submit_all_example :
    serve sample disk static_page digest decode store
      (pos 7)
      (submit_all digest none earlier)
      posted
    ≡ ret (
      submit_all digest none (earlier ++ now_pays ∷ []),
      accepted_page (pos 7) (row_hash digest now_pays),
    )
unfolding trim_left trim_right is_integer
serve-submit_all_example =
    serve-submit_all digest decode sample disk static_page store earlier now_pays posted refl refl
      refl refl

default_addr : server_addr [] ≡ codes ":8080"
unfolding server_addr trim_left trim_right has_prefix
default_addr = refl
