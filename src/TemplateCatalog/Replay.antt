-- ===== src/TemplateCatalog/Replay.antt =====
-- templatecatalog/state.go: requests that are repeated, and requests that fail.
use bananagine.Prelude.{
  ◌∙◌, sym, subst, pos, ℕ, ◌+◌, ◌%◌, ◌^◌, String, int_eq, true, false, string_eq, ◌==◌, some, ◌≡◌,
  ◌≢◌, refl, arith, eq_iff, inl, inr, Bool-cases, Option-cases, ap,
}
use bananagine.Map.{Map, get, get-put_self}
use bananagine.Text.{trim_space}
use bananagine.Service.{ok, err, Result-cases, ServiceError}
use bananagine.Allocation.Capacity.{Float64}
use bananagine.TemplateCatalog.Contracts.{Entry, ReplaceRequest, ImportRequest, Catalog}
use bananagine.TemplateCatalog.State.{
  State, Json, Reply, catalog, validate_entries, record_request, replace, import,
}

module _ (f : Float64) where
  -- The state answers a request of this ID and fingerprint with the catalog.
  Remembered : State f → String → String → Catalog f → Type 0
  Remembered s request_id fingerprint c =
      (get s.requests request_id ≡ some fingerprint) × (catalog f s ≡ c)

  record_request-Remembered :
      (s : State f) (request_id : String) (entries : Map String (Entry f)) (fingerprint : String)
      (revision : ℕ) (reused : String) (c : Catalog f)
      → (record_request f s request_id entries fingerprint revision reused).0 ≡ ok c
      → Remembered
          (record_request f s request_id entries fingerprint revision reused).1
          request_id
          fingerprint
          c
  unfolding record_request Remembered
  record_request-Remembered s request_id entries fingerprint revision reused c =
      elim (Option-cases (get s.requests request_id)) [
        | inl fresh ↦
            rw (fresh, record_request) (λ q. (get-put_self s.requests request_id fingerprint, cc))
        | inr (prior, known) ↦ elim (Bool-cases (prior == fingerprint)) [
          | inl same ↦
              let e : prior ≡ fingerprint = ground (arith, eq_iff prior fingerprint) in
              rw (known, same, record_request) (λ q. (cc, cc))
          | inr other ↦ rw (known, other, record_request) (λ q. absurd cc)
        ]
      ]

  remembered :
      (s : State f) (request_id : String) (entries : Map String (Entry f)) (fingerprint : String)
      (revision : ℕ) (reused : String) (c : Catalog f)
      → Remembered s request_id fingerprint c
      → record_request f s request_id entries fingerprint revision reused ≡ (ok c, s)
  unfolding record_request Remembered
  remembered s request_id entries fingerprint revision reused c (known, same) =
      let hit : (fingerprint == fingerprint) ≡ true =
        ground (arith, eq_iff fingerprint fingerprint) in
      rw (known, hit, record_request) (ap (λ x. (ok x, s)) same)

  replace_of_valid :
      (json : Json f) (s : State f) (r : ReplaceRequest f) (entries : Map String (Entry f))
      (fingerprint : String)
      → (trim_space r.request_id == "") ≡ false
      → validate_entries f json r.entries ≡ ok (entries, fingerprint)
      → replace f json s r
        ≡ record_request f s
            (trim_space r.request_id)
            entries
            fingerprint
            ((s.revision + 1) % 2 ^ 64)
            "request_id was already used for a different catalog"
  unfolding replace
  replace_of_valid json s r entries fingerprint named valid = rw (named, valid, replace) refl

  refuses_unnamed :
      (json : Json f) (s : State f) (r : ReplaceRequest f) (c : Catalog f)
      → (trim_space r.request_id == "") ≡ true
      → (replace f json s r).0 ≢ ok c
  unfolding replace
  refuses_unnamed json s r c unnamed = rw (unnamed, replace) (λ q. cc)

  refuses_invalid :
      (json : Json f) (s : State f) (r : ReplaceRequest f) (c : Catalog f) (e : ServiceError)
      → (trim_space r.request_id == "") ≡ false
      → validate_entries f json r.entries ≡ err e
      → (replace f json s r).0 ≢ ok c
  unfolding replace
  refuses_invalid json s r c e named invalid = rw (named, invalid, replace) (λ q. cc)

  replaced_again :
      (json : Json f) (s : State f) (r : ReplaceRequest f) (c : Catalog f)
      (entries : Map String (Entry f)) (fingerprint : String)
      → (trim_space r.request_id == "") ≡ false
      → validate_entries f json r.entries ≡ ok (entries, fingerprint)
      → (replace f json s r).0 ≡ ok c
      → replace f json (replace f json s r).1 r ≡ (ok c, (replace f json s r).1)
  replaced_again json s r c entries fingerprint named valid h =
      let next = (replace f json s r).1 in
      let kept : Remembered next (trim_space r.request_id) fingerprint c =
        subst (λ (x : Reply f). x.0 ≡ ok c → Remembered x.1 (trim_space r.request_id) fingerprint c)
          (sym (replace_of_valid json s r entries fingerprint named valid))
          (record_request-Remembered s (trim_space r.request_id) entries fingerprint
            ((s.revision + 1) % 2 ^ 64) "request_id was already used for a different catalog" c)
          h in
      replace_of_valid json next r entries fingerprint named valid
      ∙ remembered next (trim_space r.request_id) entries fingerprint ((next.revision + 1) % 2 ^ 64)
          "request_id was already used for a different catalog" c kept

  -- A replacement that was accepted is answered again with the same catalog and changes nothing: the
  -- revision does not grow a second time.
  pub replace_again :
      (json : Json f) (s : State f) (r : ReplaceRequest f) (c : Catalog f)
      → (replace f json s r).0 ≡ ok c
      → replace f json (replace f json s r).1 r ≡ (ok c, (replace f json s r).1)
  replace_again json s r c h = elim (Bool-cases (trim_space r.request_id == "")) [
    | inl unnamed ↦ absurd (refuses_unnamed json s r c unnamed h)
    | inr named ↦ elim (Result-cases (validate_entries f json r.entries)) [
      | inr (e, invalid) ↦ absurd (refuses_invalid json s r c e named invalid h)
      | inl ((entries, fingerprint), valid) ↦
          replaced_again json s r c entries fingerprint named valid h
    ]
  ]

  record_request_fails :
      (s : State f) (request_id : String) (entries : Map String (Entry f)) (fingerprint : String)
      (revision : ℕ) (reused : String) (e : ServiceError)
      → (record_request f s request_id entries fingerprint revision reused).0 ≡ err e
      → (record_request f s request_id entries fingerprint revision reused).1 ≡ s
  unfolding record_request
  record_request_fails s request_id entries fingerprint revision reused e =
      elim (Option-cases (get s.requests request_id)) [
        | inl fresh ↦ rw (fresh, record_request) (λ q. absurd cc)
        | inr (prior, known) ↦ elim (Bool-cases (prior == fingerprint)) [
          | inl same ↦ rw (known, same, record_request) (λ q. refl)
          | inr other ↦ rw (known, other, record_request) (λ q. refl)
        ]
      ]

  -- An import that fails, at whatever check or entry, leaves the catalog as it was.
  pub import_fails :
      (json : Json f) (s : State f) (r : ImportRequest f) (e : ServiceError)
      → (import f json s r).0 ≡ err e
      → (import f json s r).1 ≡ s
  unfolding import
  import_fails json s r e = elim (Bool-cases (r.snapshot.version == pos 1)) [
    | inr old ↦ rw (old, import) (λ q. refl)
    | inl current ↦ elim (Result-cases (validate_entries f json r.snapshot.entries)) [
      | inr (e', invalid) ↦ rw (current, invalid, import) (λ q. refl)
      | inl ((entries, fingerprint), valid) ↦ elim (Bool-cases (trim_space r.request_id == "")) [
        | inl unnamed ↦ rw (current, valid, unnamed, import) (λ q. refl)
        | inr named ↦
            rw (current, valid, named, import)
              (record_request_fails s (trim_space r.request_id) entries fingerprint
                r.snapshot.revision _ e)
      ]
    ]
  ]
