-- ===== src/Collection/Identity.antt =====
-- The handlers of a collection as objects: found, changed in place and removed by identity.
use snet_gateway.Prelude.{
  ◌≢◌, All, ℕ, suc, ◌≤◌, ◌<◌, ◌≡◌, refl, ap, inl, inr, Bool-cases, ==→eq, Option, none, some, List,
  [], ◌∷◌, ◌++◌, arith, ◌==◌, if◌then◌else◌, false,
}
use mathlib.Core.Path.{subst}
use snet_gateway.External.FrameEndpoint.{FrameEndpoint}
use snet_gateway.Protocol.{GatewayAccessFrame}
use snet_gateway.Handler.{GatewayAccessServerHandler}
use snet_gateway.Collection.{remove}

module _ (w : FrameEndpoint GatewayAccessFrame) where
  unfoldable pub find :
      ℕ → List (GatewayAccessServerHandler w) → Option (GatewayAccessServerHandler w)
  find id [] = none
  find id (h ∷ hs) = if h.id == id then some h else find id hs

  -- An object with a new state.
  pub replace :
      GatewayAccessServerHandler w
      → List (GatewayAccessServerHandler w)
      → List (GatewayAccessServerHandler w)
  replace h' [] = []
  replace h' (h ∷ hs) = (if h.id == h'.id then h' else h) ∷ replace h' hs

  -- The identities grow along the list, from `lo` on and below `hi`: no object stands there twice.
  abbrev pub Increasing : ℕ → List (GatewayAccessServerHandler w) → ℕ → Type 0
  Increasing lo [] hi = lo ≤ hi
  Increasing lo (h ∷ hs) hi = (lo ≤ h.id) × Increasing (suc h.id) hs hi

  Increasing-le :
      (lo hi : ℕ) (hs : List (GatewayAccessServerHandler w)) → Increasing lo hs hi → lo ≤ hi
  Increasing-le lo hi [] v = v
  Increasing-le lo hi (h ∷ hs) v = omega (arith, Increasing-le (suc h.id) hi hs v.1)

  Increasing-lower :
      (lo lo' hi : ℕ) (hs : List (GatewayAccessServerHandler w))
      → lo' ≤ lo
      → Increasing lo hs hi
      → Increasing lo' hs hi
  Increasing-lower lo lo' hi [] le v = omega arith
  Increasing-lower lo lo' hi (h ∷ hs) le v = (omega arith, v.1)

  -- A new object at the end.
  pub Increasing-snoc :
      (lo hi : ℕ) (hs : List (GatewayAccessServerHandler w)) (h : GatewayAccessServerHandler w)
      → h.id ≡ hi
      → Increasing lo hs hi
      → Increasing lo (hs ++ h ∷ []) (suc hi)
  Increasing-snoc lo hi [] h e v = (omega arith, omega arith)
  Increasing-snoc lo hi (g ∷ hs) h e v = (v.0, Increasing-snoc (suc g.id) hi hs h e v.1)

  pub Increasing-append :
      (lo hi : ℕ) (xs ys : List (GatewayAccessServerHandler w)) (h : GatewayAccessServerHandler w)
      → Increasing lo (xs ++ h ∷ ys) hi
      → Increasing lo (xs ++ ys) hi
        × ((h' : GatewayAccessServerHandler w) → h'.id ≡ h.id → Increasing lo (xs ++ h' ∷ ys) hi)
  Increasing-append lo hi [] ys h v = (
    Increasing-lower (suc h.id) lo hi ys (omega (arith, v.0)) v.1,
    (λ h' e. (omega (arith, v.0), Increasing-lower (suc h.id) (suc h'.id) hi ys (omega arith) v.1)),
  )
  Increasing-append lo hi (x ∷ xs) ys h v =
      let rest = Increasing-append (suc x.id) hi xs ys h v.1 in
      ((v.0, rest.0), (λ h' e. (v.0, rest.1 h' e)))

  pub remove_below :
      (id lo hi : ℕ) (hs : List (GatewayAccessServerHandler w))
      → id < lo
      → Increasing lo hs hi
      → remove w id hs ≡ hs
  unfolding remove
  remove_below id lo hi [] lt v = refl
  remove_below id lo hi (h ∷ hs) lt v =
      ground (arith, remove_below id (suc h.id) hi hs (omega (arith, v.0)) v.1, v.0)

  pub replace_below :
      (h' : GatewayAccessServerHandler w) (lo hi : ℕ) (hs : List (GatewayAccessServerHandler w))
      → h'.id < lo
      → Increasing lo hs hi
      → replace h' hs ≡ hs
  unfolding replace
  replace_below h' lo hi [] lt v = refl
  replace_below h' lo hi (h ∷ hs) lt v =
      ground (arith, replace_below h' (suc h.id) hi hs (omega (arith, v.0)) v.1, v.0)

  -- An object that is found stands at one place: it is removed and changed there alone.
  pub record Placed (id : ℕ) (hs : List (GatewayAccessServerHandler w))
      (h : GatewayAccessServerHandler w) : Type 0 where
    pub before : List (GatewayAccessServerHandler w)
    pub after : List (GatewayAccessServerHandler w)
    pub identity : h.id ≡ id
    pub place : hs ≡ before ++ h ∷ after
    pub removed : remove w id hs ≡ before ++ after
    pub replaced :
        (h' : GatewayAccessServerHandler w) → h'.id ≡ id → replace h' hs ≡ before ++ h' ∷ after

  pub remove_here :
      (lo hi : ℕ) (g : GatewayAccessServerHandler w) (hs : List (GatewayAccessServerHandler w))
      → Increasing lo (g ∷ hs) hi
      → remove w g.id (g ∷ hs) ≡ hs
  unfolding remove
  remove_here lo hi g hs v = ground (arith, remove_below g.id (suc g.id) hi hs (omega arith) v.1)

  pub replace_here :
      (lo hi : ℕ) (g h' : GatewayAccessServerHandler w) (hs : List (GatewayAccessServerHandler w))
      → h'.id ≡ g.id
      → Increasing lo (g ∷ hs) hi
      → replace h' (g ∷ hs) ≡ h' ∷ hs
  unfolding replace
  replace_here lo hi g h' hs e v =
      ground (arith, replace_below h' (suc g.id) hi hs (omega arith) v.1)

  pub find_here :
      (lo hi : ℕ) (g : GatewayAccessServerHandler w) (hs : List (GatewayAccessServerHandler w))
      → Increasing lo (g ∷ hs) hi
      → Placed g.id (g ∷ hs) g
  find_here lo hi g hs v = record {
    before = [];
    after = hs;
    identity = refl;
    place = refl;
    removed = remove_here lo hi g hs v;
    replaced = λ h' k. replace_here lo hi g h' hs k v;
  }

  find_later :
      (id : ℕ) (g h : GatewayAccessServerHandler w) (hs : List (GatewayAccessServerHandler w))
      → (g.id == id) ≡ false
      → Placed id hs h
      → Placed id (g ∷ hs) h
  unfolding remove replace
  find_later id g h hs ne p = record {
    before = g ∷ p.before;
    after = p.after;
    identity = p.identity;
    place = ap (◌∷◌ g) p.place;
    removed = ground (arith, p.removed);
    replaced = λ h' k. ground (arith, p.replaced h' k);
  }

  pub find-Placed :
      (id lo hi : ℕ) (h : GatewayAccessServerHandler w) (hs : List (GatewayAccessServerHandler w))
      → find id hs ≡ some h
      → Increasing lo hs hi
      → Placed id hs h
  unfolding find
  find-Placed id lo hi h [] e v = cc
  find-Placed id lo hi h (g ∷ hs) e v = elim (Bool-cases (g.id == id)) [
    | inl here ↦
        let same : g ≡ h = ground arith in
        subst (λ (k : ℕ). Placed k (g ∷ hs) h) (==→eq _ _ here)
          (subst (Placed g.id (g ∷ hs)) same (find_here lo hi g hs v))
    | inr later ↦ find_later id g h hs later (find-Placed id (suc g.id) hi h hs (rw later at e) v.1)
  ]

  -- A changed object is found again.
  pub find-replace :
      (id : ℕ) (h h' : GatewayAccessServerHandler w) (hs : List (GatewayAccessServerHandler w))
      → find id hs ≡ some h
      → h'.id ≡ id
      → find id (replace h' hs) ≡ some h'
  unfolding find replace
  find-replace id h h' [] e k = cc
  find-replace id h h' (g ∷ hs) e k = ground (arith, find-replace id h h' hs)

  pub find-replace_other :
      (id : ℕ) (h' : GatewayAccessServerHandler w) (hs : List (GatewayAccessServerHandler w))
      → h'.id ≢ id
      → find id (replace h' hs) ≡ find id hs
  unfolding find replace
  find-replace_other id h' [] n = refl
  find-replace_other id h' (g ∷ hs) n = ground (arith, find-replace_other id h' hs n)

  -- The second of two changes of an object stays, and its removal forgets them.
  pub replace-replace :
      (h h' : GatewayAccessServerHandler w) (hs : List (GatewayAccessServerHandler w))
      → h'.id ≡ h.id
      → replace h' (replace h hs) ≡ replace h' hs
  unfolding replace
  replace-replace h h' [] e = refl
  replace-replace h h' (g ∷ hs) e = ground (arith, replace-replace h h' hs e)

  pub remove-replace :
      (h : GatewayAccessServerHandler w) (hs : List (GatewayAccessServerHandler w))
      → remove w h.id (replace h hs) ≡ remove w h.id hs
  unfolding remove replace
  remove-replace h [] = refl
  remove-replace h (g ∷ hs) = ground (arith, remove-replace h hs)

  -- An object that is not found, or that is removed, is not there.
  abbrev pub Lacks : ℕ → List (GatewayAccessServerHandler w) → Type 0
  Lacks id = All (λ (h : GatewayAccessServerHandler w). h.id ≢ id)

  pub find-Lacks :
      (id : ℕ) (hs : List (GatewayAccessServerHandler w)) → find id hs ≡ none → Lacks id hs
  unfolding find
  find-Lacks id [] e = tt
  find-Lacks id (h ∷ hs) e = (ground arith, find-Lacks id hs (ground arith))

  pub remove-Lacks : (id : ℕ) (hs : List (GatewayAccessServerHandler w)) → Lacks id (remove w id hs)
  unfolding remove
  remove-Lacks id [] = tt
  remove-Lacks id (h ∷ hs) = elim (Bool-cases (h.id == id)) [
    | inl here ↦ rw here (remove-Lacks id hs)
    | inr other ↦ rw other ((λ k. ground arith), remove-Lacks id hs)
  ]
