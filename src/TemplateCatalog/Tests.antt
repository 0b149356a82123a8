-- ===== src/TemplateCatalog/Tests.antt =====
-- Runs of templatecatalog/state.go at concrete inputs.
use bananagine.Prelude.{string_eq, pos, int_eq, not, ◌==◌, ◌≡◌, refl, some, [], ◌∷◌}
use bananagine.Map.{get, put}
use bananagine.Text.{trim_space}
use bananagine.Service.{ok, err, conflict}
use bananagine.Allocation.Capacity.Whole.{whole}
use bananagine.TemplateCatalog.Contracts.{Entry, ReplaceRequest, ImportRequest, Catalog}
use bananagine.TemplateCatalog.State.{Json, new_state, replace, import}
use bananagine.TemplateCatalog.Replay.{replace_again}
use bananagine.TemplateCatalog.Validation.{IsEntry, replaces, run, run_new-IsEntry}

-- A text that is not empty counts as JSON, and the entries have one fingerprint, as an example.
abbrev json : Json whole
json = record { valid = λ text. not (text == ""); marshal = λ entries. some "entries" }

abbrev paper : Entry whole
paper = record {
  name = "paper";
  game = "minecraft";
  label = "Paper";
  engine = "";
  cpu_limit = 2;
  memory_limit = pos 4;
  config_json = "{}";
  runtime_json = "";
}

abbrev first : ReplaceRequest whole
first = record { request_id = "r-1"; entries = paper ∷ [] }

abbrev published : Catalog whole
published = record { revision = 1; entries = paper ∷ [] }

accepts : (replace whole json (new_state whole) first).0 ≡ ok published
unfolding replace trim_space get put
accepts = refl

replace_again_example :
    replace whole json (replace whole json (new_state whole) first).1 first
    ≡ (ok published, (replace whole json (new_state whole) first).1)
replace_again_example = replace_again whole json (new_state whole) first published accepts

abbrev twice : ImportRequest whole
twice = record {
  request_id = "r-2";
  snapshot = record { version = pos 1; revision = 4; entries = paper ∷ paper ∷ [] };
}

refuses : (import whole json (new_state whole) twice).0 ≡ err (conflict "duplicate template name")
unfolding import trim_space get put
refuses = refl

holds_paper :
    get (run whole json (new_state whole) (replaces first ∷ [])).entries "paper" ≡ some paper
unfolding run replace trim_space get put
holds_paper = refl

run_new-IsEntry_example : IsEntry whole json "paper" paper
run_new-IsEntry_example = run_new-IsEntry whole json (replaces first ∷ []) "paper" paper holds_paper
