-- ===== src/Fleet/Access/Validation.antt =====
-- What the validation of validateFleetPlayer, validateFleetPlayerAction and their tests says of the
-- texts of a request.
use Prim.Native.String.{len}
use bananagine.Prelude.{
  ltb, leb, nat_eq, String, Bool, true, false, not, ◌||◌, ◌&&◌, ◌==◌, string_eq, Option, none, some,
  ◌≡◌, sym, refl, arith, eq_iff, inl, inr, Bool-cases, Option-cases, subst,
}
use bananagine.Text.{codes}
use bananagine.Text.Alphabet.{Consists, Consists_mono}
use bananagine.Text.Identity.{all_codes}
use bananagine.Fleet.Tokens.{one_of, is_player_name, name_char, is_uuid, no_control}
use bananagine.Fleet.Console.{text_char, one_of-Consists}
use bananagine.Fleet.Lifecycle.{gamemodes}
use bananagine.Fleet.Access.{
  PlayerIdentity, PlayerAction, valid_player, reason_defect, target_defect, value_defect,
  player_defect, or_defect, name_of_target, targeted, global, times, weathers,
}

first_holds : (a b c : Bool) → not (not a || not b || not c) ≡ true → a ≡ true
first_holds a b c h = ground arith

pub both : (a b : Bool) → a && b ≡ true → (a ≡ true) × (b ≡ true)
both a b h = (ground arith, ground arith)

is_player_name-Consists : (name : String) → is_player_name name ≡ true → Consists text_char name
unfolding is_player_name
is_player_name-Consists name h =
    let (short, named) =
      both (ltb 0 (len name) && leb (len name) 16) (all_codes name_char (codes name)) (parts h) in
    Consists_mono name_char text_char name (λ c q. ground arith) named
  where
    parts :
        ltb 0 (len name) && leb (len name) 16 && all_codes name_char (codes name) ≡ true
        → (ltb 0 (len name) && leb (len name) 16) && all_codes name_char (codes name) ≡ true
    parts q = ground arith

pub valid_player-Consists : (t : PlayerIdentity) → valid_player t ≡ true → Consists text_char t.name
unfolding valid_player
valid_player-Consists t h =
    is_player_name-Consists t.name
      (first_holds (is_player_name t.name) (is_uuid t.uuid) (t.platform == "java") h)

pub name_of_target-Consists :
    (p : PlayerAction) → target_defect p ≡ none → Consists text_char (name_of_target p.target)
unfolding target_defect
name_of_target-Consists p = elim (Option-cases p.target) [
  | inl absent ↦ λ h. rw absent refl
  | inr (t, there) ↦ elim (Bool-cases (valid_player t)) [
    | inl good ↦ λ h. rw there (valid_player-Consists t good)
    | inr bad ↦ elim (Bool-cases (one_of p.action targeted)) [
      | inl named ↦ rw (named, there, bad, target_defect) (λ h. absurd cc)
      | inr other ↦ elim (Bool-cases (one_of p.action global)) [
        | inl wide ↦ rw (other, wide, there, target_defect) (λ h. absurd cc)
        | inr unknown ↦ rw (other, unknown, target_defect) (λ h. absurd cc)
      ]
    ]
  ]
]

pub target_defect_known :
    (p : PlayerAction)
    → target_defect p ≡ none
    → one_of p.action targeted || one_of p.action global ≡ true
unfolding target_defect
target_defect_known p = elim (Bool-cases (one_of p.action targeted)) [
  | inl named ↦ λ h. ground arith
  | inr other ↦ elim (Bool-cases (one_of p.action global)) [
    | inl wide ↦ λ h. ground arith
    | inr unknown ↦ rw (other, unknown, target_defect) (λ h. absurd cc)
  ]
]

listed : (given known : Bool) → given ≡ true → given && not known ≡ false → known ≡ true
listed given known h k = ground arith

announced : (given a b c : Bool) → given ≡ true → given && (a || b || not c) ≡ false → c ≡ true
announced given a b c h k = ground arith

unlisted :
    (g t w a e : Bool)
    → g ≡ false
    → t ≡ false
    → w ≡ false
    → a ≡ false
    → not g && not t && not w && not a && not e ≡ false
    → e ≡ true
unlisted g t w a e p q r s h = ground arith

empty-Consists : (value : String) → (value == "") ≡ true → Consists text_char value
empty-Consists value e =
    let same : value ≡ "" = ground (arith, eq_iff value "") in
    subst (λ t. Consists text_char t) (sym same) refl

pub value-Consists : (p : PlayerAction) → value_defect p ≡ none → Consists text_char p.value
unfolding value_defect no_control
value-Consists p =
    let g = p.action == "gamemode" in
    let t = p.action == "time" in
    let w = p.action == "weather" in
    let a = p.action == "announce" in
    let e = p.value == "" in
    elim (Bool-cases (g && not (one_of p.value gamemodes))) [
      | inl bad ↦ rw (bad, value_defect) (λ q. absurd cc)
      | inr g_ok ↦ elim (Bool-cases (t && not (one_of p.value times))) [
        | inl bad ↦ rw (g_ok, bad, value_defect) (λ q. absurd cc)
        | inr t_ok ↦ elim (Bool-cases (w && not (one_of p.value weathers))) [
          | inl bad ↦ rw (g_ok, t_ok, bad, value_defect) (λ q. absurd cc)
          | inr w_ok ↦
              elim (Bool-cases (a && (e || ltb 256 (len p.value) || not (no_control p.value)))) [
                | inl bad ↦ rw (g_ok, t_ok, w_ok, bad, value_defect) (λ q. absurd cc)
                | inr a_ok ↦ elim (Bool-cases (not g && not t && not w && not a && not e)) [
                  | inl bad ↦ rw (g_ok, t_ok, w_ok, a_ok, bad, value_defect) (λ q. absurd cc)
                  | inr e_ok ↦ λ q. by_action g_ok t_ok w_ok a_ok e_ok
                ]
              ]
        ]
      ]
    ]
  where
    by_action :
        p.action == "gamemode" && not (one_of p.value gamemodes) ≡ false
        → p.action == "time" && not (one_of p.value times) ≡ false
        → p.action == "weather" && not (one_of p.value weathers) ≡ false
        → p.action == "announce"
            && (p.value == "" || ltb 256 (len p.value) || not (no_control p.value))
          ≡ false
        → not (p.action == "gamemode")
            && not (p.action == "time")
            && not (p.action == "weather")
            && not (p.action == "announce")
            && not (p.value == "")
          ≡ false
        → Consists text_char p.value
    by_action g_ok t_ok w_ok a_ok e_ok = elim (Bool-cases (p.action == "gamemode")) [
      | inl g ↦
          one_of-Consists text_char p.value gamemodes refl
            (listed (p.action == "gamemode") (one_of p.value gamemodes) g g_ok)
      | inr ng ↦ elim (Bool-cases (p.action == "time")) [
        | inl t ↦
            one_of-Consists text_char p.value times refl
              (listed (p.action == "time") (one_of p.value times) t t_ok)
        | inr nt ↦ elim (Bool-cases (p.action == "weather")) [
          | inl w ↦
              one_of-Consists text_char p.value weathers refl
                (listed (p.action == "weather") (one_of p.value weathers) w w_ok)
          | inr nw ↦ elim (Bool-cases (p.action == "announce")) [
            | inl a ↦
                announced (p.action == "announce") (p.value == "") (ltb 256 (len p.value))
                  (no_control p.value) a a_ok
            | inr na ↦ empty-Consists p.value (
                unlisted (p.action == "gamemode") (p.action == "time") (p.action == "weather")
                  (p.action == "announce") (p.value == "") ng nt nw na e_ok)
          ]
        ]
      ]
    ]

or_defect_both : (d e : Option String) → or_defect d e ≡ none → (d ≡ none) × (e ≡ none)
or_defect_both none e h = (refl, h)
or_defect_both (some message) e h = absurd cc

last_holds : (a b c d e : Bool) → a || b || c || d || not e ≡ false → e ≡ true
last_holds a b c d e h = ground arith

reason-Consists : (p : PlayerAction) → reason_defect p ≡ none → Consists text_char p.reason_message
unfolding reason_defect no_control
reason-Consists p =
    let code = p.reason_code in
    let message = p.reason_message in
    let plain = no_control message in
    let empty = len code == 0 in
    let long = ltb 64 (len code) in
    let control = not (no_control code) in
    let wide = ltb 256 (len message) in
    elim (Bool-cases (empty || long || control || wide || not plain)) [
      | inl bad ↦ rw (bad, reason_defect) (λ h. absurd cc)
      | inr fine ↦ λ h. last_holds empty long control wide plain fine
    ]

-- The texts of a valid action: its target, its value and its reason.
pub record Texts (p : PlayerAction) : Type 0 where
  pub target : Consists text_char (name_of_target p.target)
  pub value : Consists text_char p.value
  pub reason : Consists text_char p.reason_message
  pub known : one_of p.action targeted || one_of p.action global ≡ true

pub player_defect-Texts : (p : PlayerAction) → player_defect p ≡ none → Texts p
unfolding player_defect
player_defect-Texts p h =
    let (reason, later) =
      or_defect_both (reason_defect p) (or_defect (target_defect p) (value_defect p)) h in
    let (target, value) = or_defect_both (target_defect p) (value_defect p) later in
    record {
      target = name_of_target-Consists p target;
      value = value-Consists p value;
      reason = reason-Consists p reason;
      known = target_defect_known p target;
    }
