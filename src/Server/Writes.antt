-- ===== src/Server/Writes.antt =====
-- Which requests change the CSV file, and the submissions that are accepted.
use sharded_blockchain_dashb.Base.{
  ◌≡◌, refl, sym, ap, ◌∙◌, true, false, Option, none, some, List, [], ◌∷◌, ◌++◌, inl, inr, ◌⊎◌,
  Bool-cases, Option-cases,
}
use sharded_blockchain_dashb.Base.Keyed.{Bytes, bytes_eq, bytes_eq_iff, bytes_eq_refl}
use sharded_blockchain_dashb.Base.Int.{ℤ}
use sharded_blockchain_dashb.Base.Outcome.{ret, ◌>>=◌, >>=-eq-ret, ret-injective}
use sharded_blockchain_dashb.Backend.{Backend}
use sharded_blockchain_dashb.Dashboard.Store.{ChainStore}
use sharded_blockchain_dashb.Submission.{Request}
use sharded_blockchain_dashb.Submission.Rows.{Submitted, is_complete, row_hash, submit_all}
use sharded_blockchain_dashb.Submission.Table.{
  append_transaction_csv_incomplete, append_transaction_csv-submit_all,
}
use sharded_blockchain_dashb.Server.{
  HttpRequest, HttpResponse, accepted_page, transactions_path, post, submit_decoded,
  serve_submission, serve_page, serve,
}

-- a post of a complete submission to the path of submissions
abbrev pub Submits : (Bytes → Option Request) → HttpRequest → Type 0
Submits decode_request req =
    (req.path ≡ transactions_path)
    × (req.method ≡ post)
    × (r : Request) × (decode_request req.body ≡ some r)
    × (is_complete r ≡ true)

module _ (sha256 : Bytes → Bytes) (decode_request : Bytes → Option Request) where
  submit_decoded-file :
      (now : ℤ) (file : Option Bytes) (body : Bytes)
      → ((submit_decoded sha256 decode_request now file (decode_request body)).0 ≡ file)
        ⊎ ((r : Request) × (decode_request body ≡ some r) × (is_complete r ≡ true))
  submit_decoded-file now file body = elim (Option-cases (decode_request body)) [
    | inl bad ↦ inl (rw bad refl)
    | inr (r, read) ↦ elim (Bool-cases (is_complete r)) [
      | inl whole ↦ inr (r, read, whole)
      | inr lacking ↦ inl (
          rw read (
            append_transaction_csv_incomplete sha256 (record { time = now; request = r }) file
              lacking))
    ]
  ]

  serve_submission-file :
      (now : ℤ) (file : Option Bytes) (req : HttpRequest)
      → ((serve_submission sha256 decode_request now file req).0 ≡ file)
        ⊎ ((req.method ≡ post)
            × (r : Request) × (decode_request req.body ≡ some r)
            × (is_complete r ≡ true))
  unfolding serve_submission
  serve_submission-file now file req = elim (Bool-cases (bytes_eq req.method post)) [
    | inr other ↦ inl (rw other refl)
    | inl posted ↦ elim (submit_decoded-file now file req.body) [
      | inl kept ↦ inl (rw posted kept)
      | inr (r, read, whole) ↦ inr ((bytes_eq_iff req.method post).0 posted, r, read, whole)
    ]
  ]

  module _ (lib : Backend) (disk : Bytes → lib.Bolt) (static_files : Bytes → HttpResponse) where
    serve-submission :
        (store : ChainStore) (now : ℤ) (file : Option Bytes) (req : HttpRequest)
        → bytes_eq req.path transactions_path ≡ true
        → serve lib disk static_files sha256 decode_request store now file req
          ≡ ret (serve_submission sha256 decode_request now file req)
    unfolding serve
    serve-submission store now file req here = rw here refl

    serve-page :
        (store : ChainStore) (now : ℤ) (file : Option Bytes) (req : HttpRequest)
        → bytes_eq req.path transactions_path ≡ false
        → serve lib disk static_files sha256 decode_request store now file req
          ≡ (serve_page lib disk static_files store req >>= λ p. ret (file, p))
    unfolding serve
    serve-page store now file req other = rw other refl

    -- A response leaves the CSV file as it was, unless the request posts a complete submission, in JSON,
    -- to the path of submissions.
    pub serve-file :
        (store : ChainStore) (now : ℤ) (file file' : Option Bytes) (req : HttpRequest)
        (page : HttpResponse)
        → serve lib disk static_files sha256 decode_request store now file req ≡ ret (file', page)
        → (file' ≡ file) ⊎ Submits decode_request req
    serve-file store now file file' req page h =
        elim (Bool-cases (bytes_eq req.path transactions_path)) [
          | inl here ↦
              let answer = ret-injective (sym (serve-submission store now file req here) ∙ h) in
              elim (serve_submission-file now file req) [
                | inl kept ↦ inl (sym (ap (λ a. a.0) answer) ∙ kept)
                | inr (posted, r, read, whole) ↦
                    inr ((bytes_eq_iff req.path transactions_path).0 here, posted, r, read, whole)
              ]
          | inr other ↦
              let (answer, e, written) =
                >>=-eq-ret (serve_page lib disk static_files store req) (λ p. ret (file, p))
                  (sym (serve-page store now file req other) ∙ h) in
              inl (sym (ap (λ a. a.0) (ret-injective written)))
        ]

    -- After any submissions that began with no file, a post of a complete one is accepted: the response
    -- has its time and its hash, and the file is that of all the submissions, this one the last.
    pub serve-submit_all :
        (store : ChainStore) (ss : List Submitted) (s : Submitted) (req : HttpRequest)
        → req.path ≡ transactions_path
        → req.method ≡ post
        → decode_request req.body ≡ some s.request
        → is_complete s.request ≡ true
        → serve lib disk static_files sha256 decode_request store s.time
            (submit_all sha256 none ss)
            req
          ≡ ret (submit_all sha256 none (ss ++ s ∷ []), accepted_page s.time (row_hash sha256 s))
    unfolding serve serve_submission
    serve-submit_all store ss s req path method read whole =
        rw
          (
            path,
            bytes_eq_refl transactions_path,
            method,
            bytes_eq_refl post,
            read,
            append_transaction_csv-submit_all sha256 ss s whole,
          )
          refl
