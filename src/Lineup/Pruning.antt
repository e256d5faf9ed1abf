-- ===== src/Lineup/Pruning.antt =====
-- src/lineups/resolve-lineup.ts: what `pruneOverrides` drops when exceptions are stored.
use flyer_g_be.Base.{
  ℕ, ◌==◌, ◌≡◌, refl, ap, subst, sym, ==_iff, true, Bool-cases, inl, inr, none, List, [], ◌∷◌, any,
  all, ◌∙◌, map, filter, Map, get, arith,
}
use flyer_g_be.Lineup.{
  Block, BlockChange, Lineup, DeviceOverrides, changes_something, is_kept, prune_overrides,
  with_change, resolve_settings, resolve_lineup,
}

-- An object has one entry for a key.
abbrev pub IsKeyed : Map BlockChange → Type 0
IsKeyed [] = Unit
IsKeyed ((id, change) ∷ rest) = (get id rest ≡ none) × IsKeyed rest

get-filter_none :
    (ids : List ℕ) (id : ℕ) (m : Map BlockChange)
    → get id m ≡ none
    → get id (filter (is_kept ids) m) ≡ none
unfolding get
get-filter_none ids id [] h = refl
get-filter_none ids id ((j, change) ∷ m) h = ground (arith, get-filter_none ids id m)

-- For a block of the lineup, the exception that is left says the same.
with_change-filter :
    {S : Type 0} (block : Block S) (ids : List ℕ) (m : Map BlockChange)
    → any (λ id. id == block.id) ids ≡ true
    → IsKeyed m
    → with_change block (get block.id (filter (is_kept ids) m)) ≡ with_change block (get block.id m)
unfolding get with_change
with_change-filter block ids [] h k = refl
with_change-filter block ids ((j, change) ∷ m) h (fresh, k) = elim (Bool-cases (j == block.id)) [
  | inl same ↦
      let is : block.id ≡ j = sym ((==_iff j block.id).0 same) in
      let known : any (λ id. id == j) ids ≡ true =
        subst (λ i. any (λ id. id == i) ids ≡ true) is h in
      let gone : get block.id (filter (is_kept ids) m) ≡ none =
        subst (λ i. get i (filter (is_kept ids) m) ≡ none) (sym is)
          (get-filter_none ids j m fresh) in
      elim (Bool-cases (changes_something change)) [
        | inl changes ↦ ground arith
        | inr nothing ↦ ground arith
      ]
  | inr other ↦ ground (arith, with_change-filter block ids m h k)
]

blocks-filter :
    {S : Type 0} (blocks : List (Block S)) (ids : List ℕ) (m : Map BlockChange)
    → all (λ block. any (λ id. id == block.id) ids) blocks ≡ true
    → IsKeyed m
    → map (λ block. with_change block (get block.id (filter (is_kept ids) m))) blocks
      ≡ map (λ block. with_change block (get block.id m)) blocks
blocks-filter [] ids m h k = refl
blocks-filter (b ∷ blocks) ids m h k =
    let here = with_change-filter b ids m (ground arith) k in
    let rest = blocks-filter blocks ids m (ground arith) k in
    ap (λ x. x ∷ map (λ block. with_change block (get block.id (filter (is_kept ids) m))) blocks)
      here
    ∙ ap (λ l. with_change b (get b.id m) ∷ l) rest

-- Pruning the exceptions of a device to a set of block ids does not change the lineup that the
-- device follows, if every block of the lineup has its id in the set and no block has two
-- exceptions.
pub resolve_lineup-prune_overrides :
    {I S : Type 0} (lineup : Lineup I S) (overrides : DeviceOverrides I) (ids : List ℕ)
    → all (λ block. any (λ id. id == block.id) ids) lineup.blocks ≡ true
    → IsKeyed overrides.blocks
    → resolve_lineup lineup (prune_overrides overrides ids) ≡ resolve_lineup lineup overrides
unfolding resolve_lineup prune_overrides resolve_settings
resolve_lineup-prune_overrides lineup overrides ids h k =
    ap (λ blocks. record { settings = resolve_settings lineup.settings overrides; blocks = blocks })
      (blocks-filter lineup.blocks ids overrides.blocks h k)
