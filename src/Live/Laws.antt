-- ===== src/Live/Laws.antt =====
-- src/live/resolve-live.ts: which layer each part of the picture comes from.
use flyer_g_be.Base.{
  ℕ, ◌≤◌, ◌≡◌, refl, Bool, true, false, if◌then◌else◌, Option, none, some, List, [], ◌∷◌, find?,
  any, is_some, ◌↔◌, All, arith,
}
use flyer_g_be.Live.{
  LiveLayer, alive, active_layer, newest_first, with_device, main_alive, alert_alive, combine,
  resolve_live, main_of, alert_of,
}
use flyer_g_be.Live.Order.{any-newest_first, IsAmong}

module _ {A B : Type 0} where
  find-holds :
      (p : LiveLayer A B → Bool) (xs : List (LiveLayer A B)) (x : LiveLayer A B)
      → find? p xs ≡ some x
      → p x ≡ true
  find-holds p [] x e = cc
  find-holds p (y ∷ xs) x e = ground (arith, find-holds p xs x)

  active_layer-combine :
      (m a : Option (LiveLayer A B)) (now : ℕ)
      → ((x : LiveLayer A B) → m ≡ some x → alive x.main now ≡ true)
      → ((x : LiveLayer A B) → a ≡ some x → alive x.alert now ≡ true)
      → active_layer (combine m a) now ≡ combine m a
  unfolding active_layer combine alive
  active_layer-combine none none now p q = refl
  active_layer-combine (some m) none now p q = let h = p m refl in ground arith
  active_layer-combine none (some a) now p q = let k = q a refl in ground arith
  active_layer-combine (some m) (some a) now p q =
      let h = p m refl in let k = q a refl in ground arith

  -- What is resolved has no part that is over: the filter by time leaves it as it is.
  active_layer-resolve_live :
      (device : Option (LiveLayer A B)) (groups : List (LiveLayer A B)) (now : ℕ)
      → active_layer (resolve_live device groups now) now ≡ resolve_live device groups now
  unfolding resolve_live
  active_layer-resolve_live device groups now =
      let layers = with_device device (newest_first groups) in
      active_layer-combine (find? (main_alive now) layers) (find? (alert_alive now) layers) now
        (find-holds (main_alive now) layers) (find-holds (alert_alive now) layers)

  find-any :
      (p : LiveLayer A B → Bool) (xs : List (LiveLayer A B)) → is_some (find? p xs) ≡ any p xs
  find-any p [] = refl
  find-any p (x ∷ xs) = ground (arith, find-any p xs)

  any-with_device :
      (p : LiveLayer A B → Bool) (device : Option (LiveLayer A B)) (groups : List (LiveLayer A B))
      → any p (with_device device (newest_first groups)) ≡ any p (with_device device groups)
  any-with_device p none groups = any-newest_first p groups
  any-with_device p (some d) groups = ground (arith, any-newest_first p groups)

  -- Nothing is resolved exactly if no layer of the device or of a group has a picture or an alert
  -- that is not over.
  resolve_live-none_iff :
      (device : Option (LiveLayer A B)) (groups : List (LiveLayer A B)) (now : ℕ)
      → (resolve_live device groups now ≡ none) ↔ (
          (any (main_alive now) (with_device device groups) ≡ false)
          × (any (alert_alive now) (with_device device groups) ≡ false))
  unfolding resolve_live combine
  resolve_live-none_iff device groups now =
      let layers = with_device device (newest_first groups) in
      let m = find-any (main_alive now) layers in
      let a = find-any (alert_alive now) layers in
      let m' = any-with_device (main_alive now) device groups in
      let a' = any-with_device (alert_alive now) device groups in
      (λ e. (ground arith, ground arith), λ e. ground arith)

  combine-parts :
      (m a : Option (LiveLayer A B))
      → (main_of (combine m a) ≡ main_of m) × (alert_of (combine m a) ≡ alert_of a)
  unfolding combine
  combine-parts none none = (refl, refl)
  combine-parts (some m) none = (refl, refl)
  combine-parts none (some a) = (refl, refl)
  combine-parts (some m) (some a) = (refl, refl)

  -- A live picture of the device goes before that of every group, and its alert is chosen apart
  -- from it: its own if that is not over, and else that of the groups.
  pub resolve_live-device :
      (device : LiveLayer A B) (groups : List (LiveLayer A B)) (now : ℕ)
      → alive device.main now ≡ true
      → (main_of (resolve_live (some device) groups now) ≡ device.main)
        × (alert_of (resolve_live (some device) groups now) ≡ (
            if alive device.alert now
            then device.alert
            else alert_of (resolve_live none groups now)))
  unfolding resolve_live
  resolve_live-device device groups now h =
      let layers = newest_first groups in
      let one =
        combine-parts (find? (main_alive now) (device ∷ layers))
          (find? (alert_alive now) (device ∷ layers)) in
      let two = combine-parts (find? (main_alive now) layers) (find? (alert_alive now) layers) in
      (ground arith, ground arith)

  -- A layer of a group whose picture is not over, and none of them was set later.
  pub record IsNewest (now : ℕ) (groups : List (LiveLayer A B)) (g : LiveLayer A B) : Type 0 where
    pub among : IsAmong g groups
    pub live : alive g.main now ≡ true
    pub newest : All (λ x. main_alive now x ≡ true → x.set_at ≤ g.set_at) groups
