-- ===== src/HostAgent/Client/Credential.antt =====
-- Which principal's token a client presents.
use mathlib.Core.List.{mem-cons_self, mem-cons_of_mem}
use bananagine.Prelude.{
  String, ℤ, leb_ℤ, Bool, true, false, not, ◌&&◌, string_eq, ◌==◌, List, [], ◌∷◌, Mem, All,
  All-mono, ◌≡◌, ◌≢◌, ◌⊎◌, refl, sym, ap, subst, arith, inl, inr, Bool-cases,
}
use bananagine.Service.{Result, ok, err}
use bananagine.HostAgent.Types.{PrincipalCredential}
use bananagine.HostAgent.Client.{after, no_principal, better, select, credential}

-- A token that has not expired.
abbrev pub usable : ℤ → PrincipalCredential → Bool
usable now p = not (p.token == "") && after p.expires_at now

-- A usable principal that expires later.
abbrev pub beats : ℤ → PrincipalCredential → PrincipalCredential → Bool
beats now q p = usable now q && after q.expires_at p.expires_at

record Best (now : ℤ) (ps : List PrincipalCredential) (selected r : PrincipalCredential)
    : Type 0 where
  from : (r ≡ selected) ⊎ (Mem r ps × (usable now r ≡ true))
  none_beats : All (λ q. beats now q r ≡ false) ps
  not_before : leb_ℤ selected.expires_at r.expires_at ≡ true

leb_ℤ_refl : (a : ℤ) → leb_ℤ a a ≡ true
leb_ℤ_refl a = ground arith

leb_ℤ_trans : (a b c : ℤ) → leb_ℤ a b ≡ true → leb_ℤ b c ≡ true → leb_ℤ a c ≡ true
leb_ℤ_trans a b c h k = ground arith

leb_ℤ_total : (a b : ℤ) → leb_ℤ a b ≡ false → leb_ℤ b a ≡ true
leb_ℤ_total a b h = ground arith

taken : (t e s : Bool) → t && e && not s ≡ true → (t && e ≡ true) × (s ≡ false)
taken t e s h = (ground arith, ground arith)

passed_over :
    (t e s r : Bool) → t && e && not s ≡ false → (s ≡ true → r ≡ true) → (t && e) && not r ≡ false
passed_over t e s r h k = ground (arith, k)

module _ (now : ℤ) (c : PrincipalCredential) (rest : List PrincipalCredential)
    (selected r : PrincipalCredential) where
  newer-Best :
      not (c.token == "") && after c.expires_at now && after c.expires_at selected.expires_at ≡ true
      → Best now rest c r
      → Best now (c ∷ rest) selected r
  newer-Best newer b =
      let has = not (c.token == "") in
      let alive = after c.expires_at now in
      let (fit, later) = taken has alive (leb_ℤ c.expires_at selected.expires_at) newer in
      let before = leb_ℤ_total c.expires_at selected.expires_at later in
      record {
        from = inr (elim b.from [
          | inl same ↦ (
            subst (λ p. Mem p (c ∷ rest)) (sym same) mem-cons_self,
            subst (λ p. usable now p ≡ true) (sym same) fit,
          )
          | inr (there, fine) ↦ (mem-cons_of_mem c there, fine)
        ]);
        none_beats = (
          not_beaten (usable now c) (leb_ℤ c.expires_at r.expires_at) b.not_before,
          b.none_beats,
        );
        not_before = leb_ℤ_trans selected.expires_at c.expires_at r.expires_at before b.not_before;
      }
    where
      not_beaten : (u l : Bool) → l ≡ true → u && not l ≡ false
      not_beaten u l h = ground arith

  older-Best :
      not (c.token == "") && after c.expires_at now && after c.expires_at selected.expires_at
        ≡ false
      → Best now rest selected r
      → Best now (c ∷ rest) selected r
  older-Best older b =
      let has = not (c.token == "") in
      let alive = after c.expires_at now in
      record {
        from = elim b.from [
          | inl same ↦ inl same
          | inr (there, fine) ↦ inr (mem-cons_of_mem c there, fine)
        ];
        none_beats = (
          passed_over has alive (leb_ℤ c.expires_at selected.expires_at)
              (leb_ℤ c.expires_at r.expires_at) older
              (λ s. leb_ℤ_trans c.expires_at selected.expires_at r.expires_at s b.not_before),
          b.none_beats,
        );
        not_before = b.not_before;
      }

select-Best :
    (now : ℤ) (ps : List PrincipalCredential) (selected : PrincipalCredential)
    → Best now ps selected (select now ps selected)
unfolding select better
select-Best now [] selected = record {
  from = inl refl;
  none_beats = tt;
  not_before = leb_ℤ_refl selected.expires_at;
}
select-Best now (c ∷ rest) selected =
    elim (Bool-cases
      (not (c.token == "") && after c.expires_at now && after c.expires_at selected.expires_at)) [
        | inl newer ↦
            rw (newer, select)
              (newer-Best now c rest selected (select now rest c) newer (select-Best now rest c))
        | inr older ↦
            rw (older, select)
              (older-Best now c rest selected (select now rest selected) older
                (select-Best now rest selected))
      ]

-- No principal of the list is usable, or one of those that are usable expires last.
abbrev pub IsSelected : ℤ → List PrincipalCredential → Result String String → Type 0
IsSelected now ps (err e) = All (λ q. usable now q ≡ false) ps
IsSelected now ps (ok token) =
    (p : PrincipalCredential) × Mem p ps
    × (p.token ≡ token)
    × (usable now p ≡ true)
    × All (λ q. beats now q p ≡ false) ps

unusable : (t e z : Bool) → (t && e) && z ≡ false → (e ≡ true → z ≡ true) → t && e ≡ false
unusable t e z h k = ground (arith, k)

later_than : (n z : Bool) → not n ≡ true → (z ≡ true → n ≡ true) → not z ≡ true
later_than n z h k = ground (arith, k)

-- Once the clock is past the zero time, `credential` presents the token of a principal that is not
-- empty and has not expired, and no such principal expires later; it fails only if no principal of the
-- configuration is of this kind.
pub credential-IsSelected :
    (principals : List PrincipalCredential) (now : ℤ)
    → leb_ℤ no_principal.expires_at now ≡ true
    → IsSelected now principals (credential principals now)
unfolding credential
credential-IsSelected principals now started =
    let r = select now principals no_principal in
    let best = select-Best now principals no_principal in
    elim (Bool-cases (r.token == "")) [
      | inl none_found ↦
          rw (none_found, credential)
            (elim best.from [
              | inl same ↦
                  All-mono (λ q. beats now q r ≡ false) (λ q. usable now q ≡ false) principals
                    (λ q beaten. never q (subst (λ p. beats now q p ≡ false) same beaten))
                    best.none_beats
              | inr (there, fine) ↦
                  absurd (empty_token (r.token == "") (after r.expires_at now) none_found fine)
            ])
      | inr found ↦
          rw (found, credential)
            (elim best.from [
              | inl same ↦
                  let none : (r.token == "") ≡ true = ap (λ p. p.token == "") same in absurd cc
              | inr (there, fine) ↦ (r, there, refl, fine, best.none_beats)
            ])
    ]
  where
    empty_token : (t e : Bool) → t ≡ true → not t && e ≢ true
    empty_token t e h k = ground arith

    never : (q : PrincipalCredential) → beats now q no_principal ≡ false → usable now q ≡ false
    never q beaten =
        unusable (not (q.token == "")) (after q.expires_at now)
          (after q.expires_at no_principal.expires_at) beaten
          (λ alive.
            later_than (leb_ℤ q.expires_at now) (leb_ℤ q.expires_at no_principal.expires_at) alive
              (λ z. leb_ℤ_trans q.expires_at no_principal.expires_at now z started))
