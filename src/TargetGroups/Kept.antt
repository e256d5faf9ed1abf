-- ===== src/TargetGroups/Kept.antt =====
-- What the operations on groups leave of the references to them.
use flyer_g_be.Base.{
  ℕ, ◌==◌, ◌≡◌, refl, inl, inr, true, false, not, Bool-cases, List, [], ◌∷◌, ◌++◌, map, filter, any,
  arith,
}
use flyer_g_be.Base.Keyed.{All-weaken, All-append, All-map}
use flyer_g_be.TargetGroups.{
  Group, GroupDevice, GroupLink, UpdateGroup, has_group, links_to, renamed,
}
use flyer_g_be.TargetGroups.Steps.{Linked, Followed, HasLineups}

-- The groups after each operation
pub has_group-append :
    (groups : List Group) (g : Group) (i : ℕ)
    → has_group groups i ≡ true
    → has_group (groups ++ g ∷ []) i ≡ true
has_group-append [] g i h = absurd (ground arith)
has_group-append (x ∷ groups) g i h = ground (arith, has_group-append groups g i)

pub has_group-renamed :
    (id : ℕ) (changes : UpdateGroup) (now : ℕ) (groups : List Group) (i : ℕ)
    → has_group (map (renamed id changes now) groups) i ≡ has_group groups i
has_group-renamed id changes now [] i = refl
has_group-renamed id changes now (x ∷ groups) i =
    ground (arith, has_group-renamed id changes now groups i)

has_group-filter :
    (id : ℕ) (groups : List Group) (i : ℕ)
    → (i == id) ≡ false
    → has_group groups i ≡ true
    → has_group (filter (λ g. not (g.id == id)) groups) i ≡ true
has_group-filter id [] i other h = h
has_group-filter id (x ∷ groups) i other h = elim (Bool-cases (x.id == id)) [
  | inl e ↦ rw e (has_group-filter id groups i other (ground arith))
  | inr e ↦ rw e (ground (arith, has_group-filter id groups i other))
]

module _ (id : ℕ) (groups : List Group) where
  pub Linked-filter :
      (links : List GroupLink)
      → links_to id links ≡ false
      → Linked groups links
      → Linked (filter (λ g. not (g.id == id)) groups) links
  Linked-filter [] apart h = tt
  Linked-filter (l ∷ links) apart (h, hs) = (
    has_group-filter id groups l.target_group_id (ground arith) h,
    Linked-filter links (ground arith) hs,
  )

  pub Followed-filter :
      (devices : List GroupDevice)
      → any (λ d. d.program_group_id == id) devices ≡ false
      → Followed groups devices
      → Followed (filter (λ g. not (g.id == id)) groups) devices
  Followed-filter [] apart h = tt
  Followed-filter (d ∷ devices) apart (h, hs) = (
    has_group-filter id groups d.program_group_id (ground arith) h,
    Followed-filter devices (ground arith) hs,
  )

-- The lineups after each operation
any-more :
    (i j : ℕ) (lineups : List ℕ)
    → any (λ l. l == i) lineups ≡ true
    → any (λ l. l == i) (lineups ++ j ∷ []) ≡ true
any-more i j [] h = absurd (ground arith)
any-more i j (l ∷ lineups) h = ground (arith, any-more i j lineups)

any-new : (i : ℕ) (lineups : List ℕ) → any (λ l. l == i) (lineups ++ i ∷ []) ≡ true
any-new i [] = ground arith
any-new i (l ∷ lineups) = ground (arith, any-new i lineups)

pub any-filter :
    (id i : ℕ) (lineups : List ℕ)
    → (i == id) ≡ false
    → any (λ l. l == i) lineups ≡ true
    → any (λ l. l == i) (filter (λ l. not (l == id)) lineups) ≡ true
any-filter id i [] other h = h
any-filter id i (l ∷ lineups) other h = elim (Bool-cases (l == id)) [
  | inl e ↦ rw e (any-filter id i lineups other (ground arith))
  | inr e ↦ rw e (ground (arith, any-filter id i lineups other))
]

pub HasLineups-filter :
    (id : ℕ) (lineups : List ℕ) (groups : List Group)
    → HasLineups lineups groups
    → HasLineups (filter (λ l. not (l == id)) lineups) (filter (λ g. not (g.id == id)) groups)
HasLineups-filter id lineups [] h = tt
HasLineups-filter id lineups (g ∷ groups) (h, hs) = elim (Bool-cases (g.id == id)) [
  | inl e ↦ rw e (HasLineups-filter id lineups groups hs)
  | inr e ↦ rw e (any-filter id g.id lineups e h, HasLineups-filter id lineups groups hs)
]

pub HasLineups-append :
    (lineups : List ℕ) (groups : List Group) (g : Group)
    → HasLineups lineups groups
    → HasLineups (lineups ++ g.id ∷ []) (groups ++ g ∷ [])
HasLineups-append lineups groups g h =
    All-append (λ x. any (λ l. l == x.id) (lineups ++ g.id ∷ []) ≡ true) groups g
      (All-weaken (λ x. any (λ l. l == x.id) lineups ≡ true)
        (λ x. any (λ l. l == x.id) (lineups ++ g.id ∷ []) ≡ true) groups
        (λ x k. any-more x.id g.id lineups k) h)
      (any-new g.id lineups)

renamed-id :
    (id : ℕ) (changes : UpdateGroup) (now : ℕ) (g : Group) → (renamed id changes now g).id ≡ g.id
renamed-id id changes now g = ground arith

pub HasLineups-renamed :
    (id : ℕ) (changes : UpdateGroup) (now : ℕ) (lineups : List ℕ) (groups : List Group)
    → HasLineups lineups groups
    → HasLineups lineups (map (renamed id changes now) groups)
HasLineups-renamed id changes now lineups groups h =
    All-map (λ g. any (λ l. l == g.id) lineups ≡ true) (λ g. any (λ l. l == g.id) lineups ≡ true)
      (renamed id changes now) groups (λ g k. rw (renamed-id id changes now g) k) h

-- References to groups that stay
module _ (before after : List Group)
    (stay : (i : ℕ) → has_group before i ≡ true → has_group after i ≡ true) where
  pub Linked-stay : (links : List GroupLink) → Linked before links → Linked after links
  Linked-stay links h =
      All-weaken (λ l. has_group before l.target_group_id ≡ true)
        (λ l. has_group after l.target_group_id ≡ true) links (λ l k. stay l.target_group_id k) h

  pub Followed-stay :
      (devices : List GroupDevice) → Followed before devices → Followed after devices
  Followed-stay devices h =
      All-weaken (λ d. has_group before d.program_group_id ≡ true)
        (λ d. has_group after d.program_group_id ≡ true) devices (λ d k. stay d.program_group_id k)
        h
