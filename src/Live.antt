-- ===== src/Live.antt =====
-- src/live/resolve-live.ts: what a display shows live, out of what was set for the device and for
-- its groups. The contents of a live picture and of an alert are any types; `until`, where it is
-- set, is its time.
pub mod Order
pub mod Laws
pub mod Service
mod Examples
use flyer_g_be.Base.{
  ℕ, leb, ltb, Bool, true, false, ◌&&◌, ◌||◌, not, if◌then◌else◌, Option, none, some, is_some, List,
  [], ◌∷◌, ◌++◌, find?,
}

pub record Part (A : Type 0) : Type 0 where
  pub content : A
  pub until : Option ℕ

-- `liveMainSchema`: a game, whose configuration is left out, or what is shown
pub data LiveMain : Type 0 where
  game : LiveMain
  show : (submission_id program_id : Option ℕ) → LiveMain

-- `LiveLayer`
pub record LiveLayer (A B : Type 0) : Type 0 where
  pub main : Option (Part A)
  pub alert : Option (Part B)
  pub set_by : ℕ
  pub set_at : ℕ

-- `alive`
unfoldable pub alive : {A : Type 0} → Option (Part A) → ℕ → Bool
alive none now = false
alive (some part) now = elim part.until [ none ↦ true | some until ↦ ltb now until ]

abbrev pub keep_alive : {A : Type 0} → Option (Part A) → ℕ → Option (Part A)
keep_alive part now = if alive part now then part else none

module _ {A B : Type 0} where
  -- `activeLayer`
  unfoldable pub active_layer : Option (LiveLayer A B) → ℕ → Option (LiveLayer A B)
  active_layer none now = none
  active_layer (some layer) now =
      let main = keep_alive layer.main now in
      let alert = keep_alive layer.alert now in
      if is_some main || is_some alert
      then some (record layer { main = main; alert = alert })
      else none

  -- `[...groups].sort((a, b) => b.setAt - a.setAt)`, which keeps the order of equals
  unfoldable pub insert : LiveLayer A B → List (LiveLayer A B) → List (LiveLayer A B)
  insert layer [] = layer ∷ []
  insert layer (other ∷ layers) =
      let rest = insert layer layers in
      if leb other.set_at layer.set_at then layer ∷ other ∷ layers else other ∷ rest

  unfoldable pub newest_first : List (LiveLayer A B) → List (LiveLayer A B)
  newest_first [] = []
  newest_first (layer ∷ layers) = insert layer (newest_first layers)

  abbrev pub with_device : Option (LiveLayer A B) → List (LiveLayer A B) → List (LiveLayer A B)
  with_device none layers = layers
  with_device (some device) layers = device ∷ layers

  abbrev pub main_alive : ℕ → LiveLayer A B → Bool
  main_alive now layer = alive layer.main now

  abbrev pub alert_alive : ℕ → LiveLayer A B → Bool
  alert_alive now layer = alive layer.alert now

  abbrev pub main_of : Option (LiveLayer A B) → Option (Part A)
  main_of none = none
  main_of (some layer) = layer.main

  abbrev pub alert_of : Option (LiveLayer A B) → Option (Part B)
  alert_of none = none
  alert_of (some layer) = layer.alert

  -- The later of two layers, the first of equals.
  abbrev later_of : LiveLayer A B → LiveLayer A B → LiveLayer A B
  later_of a b = if ltb a.set_at b.set_at then b else a

  -- What `resolveLive` makes of the layers that it has chosen for the two parts.
  unfoldable pub combine : Option (LiveLayer A B) → Option (LiveLayer A B) → Option (LiveLayer A B)
  combine none none = none
  combine (some m) none = some (record m { main = m.main; alert = none })
  combine none (some a) = some (record a { main = none; alert = a.alert })
  combine (some m) (some a) =
      let newest = later_of m a in
      some
        (record { main = m.main; alert = a.alert; set_by = newest.set_by; set_at = newest.set_at })

  -- `resolveLive`
  unfoldable pub resolve_live :
      Option (LiveLayer A B) → List (LiveLayer A B) → ℕ → Option (LiveLayer A B)
  resolve_live device groups now =
      let layers = with_device device (newest_first groups) in
      combine (find? (main_alive now) layers) (find? (alert_alive now) layers)
