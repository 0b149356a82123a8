-- ===== src/TemplateCatalog/Validation.antt =====
-- templatecatalog/state.go, `validateEntries`: what the catalog holds after any calls.
use bananagine.Prelude.{
  ℕ, ◌+◌, ◌%◌, ◌^◌, String, pos, int_eq, true, string_eq, ◌==◌, none, some, List, [], ◌∷◌, ◌≡◌, ◌≢◌,
  refl, arith, eq_iff, inl, inr, Bool-cases, Option-cases, subst,
}
use bananagine.Map.{Map, get, put, get-put}
use bananagine.Text.{trim_space}
use bananagine.Service.{ok, Result-cases}
use bananagine.Allocation.Capacity.{Float64}
use bananagine.TemplateCatalog.Contracts.{Entry, ReplaceRequest, ImportRequest}
use bananagine.TemplateCatalog.State.{
  State, Json, new_state, values, sort_entries, trimmed, defect, collect, encode, validate_entries,
  record_request, replace, import,
}

module _ (f : Float64) (json : Json f) where
  -- An entry under its name, with a game and valid texts.
  pub record IsEntry (name : String) (entry : Entry f) : Type 0 where
    pub named : entry.name ≡ name
    pub non_empty : name ≢ ""
    pub game : entry.game ≢ ""
    pub config : json.valid entry.config_json ≡ true

  abbrev AllEntries : Map String (Entry f) → Type 0
  AllEntries entries =
      (name : String) (entry : Entry f) → get entries name ≡ some entry → IsEntry name entry

  defect-IsEntry :
      (entries : Map String (Entry f)) (entry : Entry f)
      → defect f json entries entry ≡ none
      → IsEntry entry.name entry
  unfolding defect
  defect-IsEntry entries entry h = record {
    named = refl;
    non_empty = λ e. ground (arith, eq_iff entry.name "");
    game = λ e. ground (arith, eq_iff entry.name "", eq_iff entry.game "");
    config = ground arith;
  }

  put-AllEntries :
      (entries : Map String (Entry f)) (entry : Entry f)
      → IsEntry entry.name entry
      → AllEntries entries
      → AllEntries (put entries entry.name entry)
  put-AllEntries entries entry i all name e h = elim (Bool-cases (entry.name == name)) [
    | inl hit ↦
        let same : entry.name ≡ name = ground (arith, eq_iff entry.name name) in
        let this : entry ≡ e = ground (arith, get-put entries entry.name name entry) in
        subst (λ n. IsEntry n e) same (subst (λ (x : Entry f). IsEntry entry.name x) this i)
    | inr miss ↦ all name e (ground (arith, get-put entries entry.name name entry))
  ]

  collect-AllEntries :
      (source : List (Entry f)) (entries collected : Map String (Entry f))
      → AllEntries entries
      → collect f json entries source ≡ ok collected
      → AllEntries collected
  unfolding collect
  collect-AllEntries [] entries collected all =
      λ h. let same : entries ≡ collected = cc in subst AllEntries same all
  collect-AllEntries (entry ∷ rest) entries collected all =
      elim (Option-cases (defect f json entries (trimmed f entry))) [
        | inr (e, bad) ↦ rw (bad, collect) (λ h. absurd cc)
        | inl sound ↦
            rw (sound, collect)
              (λ h.
                collect-AllEntries rest (put entries (trimmed f entry).name (trimmed f entry))
                  collected
                  (put-AllEntries entries (trimmed f entry)
                    (defect-IsEntry entries (trimmed f entry) sound) all)
                  h)
      ]

  encode-AllEntries :
      (entries encoded : Map String (Entry f)) (fingerprint : String)
      → AllEntries entries
      → encode f json entries ≡ ok (encoded, fingerprint)
      → AllEntries encoded
  unfolding encode
  encode-AllEntries entries encoded fingerprint all =
      elim (Option-cases (json.marshal (values f (sort_entries f entries)))) [
        | inl failed ↦ rw (failed, encode) (λ h. absurd cc)
        | inr (text, done) ↦
            rw (done, encode) (λ h. let same : entries ≡ encoded = cc in subst AllEntries same all)
      ]

  validate_entries-AllEntries :
      (source : List (Entry f)) (entries : Map String (Entry f)) (fingerprint : String)
      → validate_entries f json source ≡ ok (entries, fingerprint)
      → AllEntries entries
  unfolding validate_entries get
  validate_entries-AllEntries source entries fingerprint =
      elim (Result-cases (collect f json [] source)) [
        | inr (e, bad) ↦ rw (bad, validate_entries) (λ h. absurd cc)
        | inl (collected, good) ↦
            rw (good, validate_entries)
              (encode-AllEntries collected entries fingerprint
                (collect-AllEntries source [] collected (λ name entry none_there. absurd cc) good))
      ]

  record_request-AllEntries :
      (s : State f) (request_id : String) (entries : Map String (Entry f)) (fingerprint : String)
      (revision : ℕ) (reused : String)
      → AllEntries s.entries
      → AllEntries entries
      → AllEntries (record_request f s request_id entries fingerprint revision reused).1.entries
  unfolding record_request
  record_request-AllEntries s request_id entries fingerprint revision reused old new =
      elim (Option-cases (get s.requests request_id)) [
        | inl fresh ↦ rw (fresh, record_request) new
        | inr (prior, known) ↦ elim (Bool-cases (prior == fingerprint)) [
          | inl same ↦ rw (known, same, record_request) old
          | inr other ↦ rw (known, other, record_request) old
        ]
      ]

  replace-AllEntries :
      (s : State f) (r : ReplaceRequest f)
      → AllEntries s.entries
      → AllEntries (replace f json s r).1.entries
  unfolding replace
  replace-AllEntries s r old = elim (Bool-cases (trim_space r.request_id == "")) [
    | inl unnamed ↦ rw (unnamed, replace) old
    | inr named ↦ elim (Result-cases (validate_entries f json r.entries)) [
      | inr (e, bad) ↦ rw (named, bad, replace) old
      | inl ((entries, fingerprint), valid) ↦
          rw (named, valid, replace)
            (record_request-AllEntries s (trim_space r.request_id) entries fingerprint
              ((s.revision + 1) % 2 ^ 64) "request_id was already used for a different catalog" old
              (validate_entries-AllEntries r.entries entries fingerprint valid))
    ]
  ]

  import-AllEntries :
      (s : State f) (r : ImportRequest f)
      → AllEntries s.entries
      → AllEntries (import f json s r).1.entries
  unfolding import
  import-AllEntries s r old = elim (Bool-cases (r.snapshot.version == pos 1)) [
    | inr other ↦ rw (other, import) old
    | inl current ↦ elim (Result-cases (validate_entries f json r.snapshot.entries)) [
      | inr (e, bad) ↦ rw (current, bad, import) old
      | inl ((entries, fingerprint), valid) ↦ elim (Bool-cases (trim_space r.request_id == "")) [
        | inl unnamed ↦ rw (current, valid, unnamed, import) old
        | inr named ↦
            rw (current, valid, named, import)
              (record_request-AllEntries s (trim_space r.request_id) entries fingerprint
                r.snapshot.revision "request_id was already used for a different snapshot" old
                (validate_entries-AllEntries r.snapshot.entries entries fingerprint valid))
      ]
    ]
  ]

  pub data Call : Type 0 where
    replaces : ReplaceRequest f → Call
    imports : ImportRequest f → Call

  abbrev pub step : State f → Call → State f
  step s (replaces r) = (replace f json s r).1
  step s (imports r) = (import f json s r).1

  unfoldable pub run : State f → List Call → State f
  run s [] = s
  run s (c ∷ cs) = run (step s c) cs

  step-AllEntries : (s : State f) (c : Call) → AllEntries s.entries → AllEntries (step s c).entries
  step-AllEntries s (replaces r) old = replace-AllEntries s r old
  step-AllEntries s (imports r) old = import-AllEntries s r old

  run-AllEntries :
      (s : State f) (cs : List Call) → AllEntries s.entries → AllEntries (run s cs).entries
  unfolding run
  run-AllEntries s [] old = old
  run-AllEntries s (c ∷ cs) old = run-AllEntries (step s c) cs (step-AllEntries s c old)

  -- After any replacements and imports, accepted or not, every entry that the catalog holds stands
  -- under its own name, which is not empty, has a game, and has a configuration that is valid JSON.
  pub run_new-IsEntry :
      (cs : List Call) (name : String) (entry : Entry f)
      → get (run (new_state f) cs).entries name ≡ some entry
      → IsEntry name entry
  unfolding get
  run_new-IsEntry cs name entry h =
      run-AllEntries (new_state f) cs (λ other e none_there. absurd cc) name entry h
