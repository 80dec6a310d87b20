-- ===== src/Gateway/Isolation.antt =====
-- The gateway as a whole: the clients are isolated from each other.
use mathlib.Core.Path.{subst}
use snet_gateway.Prelude.{
  Bool, ℕ, ◌≡◌, ◌≢◌, refl, ap, ◌∙◌, sym, some, none, List, [], ◌∷◌, ◌++◌, arith, All,
}
use snet_gateway.Prelude.Result.{ok, >>=-eq-ok}
use snet_gateway.External.FrameEndpoint.{FrameEndpoint}
use snet_gateway.External.Message.{SnetServiceMessage}
use snet_gateway.External.HdlcdClient.{HdlcdAccess}
use snet_gateway.Protocol.{GatewayAccessFrame}
use snet_gateway.Spec.{Client, ActsAs, rests, turns, leaves, client_with}
use snet_gateway.Gateway.{
  Gateway, Event, accepted, frame_read, client_closed, data_read, completed, handle, run,
}
use snet_gateway.Gateway.Invariant.{IsRunning}
use snet_gateway.Gateway.Acts.{clients_of}
use snet_gateway.Gateway.Refinement.{IsAllowed, handle_refines}
use snet_gateway.Gateway.Runs.{IsNeverFull, handle-IsRunning}

-- A client with another identity is not found where it turns, leaves or joins.
client_with-turned :
    (id : ℕ) (xs ys : List Client) (c c' : Client)
    → c.id ≢ id
    → c'.id ≢ id
    → client_with id (xs ++ c' ∷ ys) ≡ client_with id (xs ++ c ∷ ys)
client_with-turned id [] ys c c' n n' = ground arith
client_with-turned id (x ∷ xs) ys c c' n n' = rw (client_with-turned id xs ys c c' n n') refl

client_with-left :
    (id : ℕ) (xs ys : List Client) (c : Client)
    → c.id ≢ id
    → client_with id (xs ++ ys) ≡ client_with id (xs ++ c ∷ ys)
client_with-left id [] ys c n = ground arith
client_with-left id (x ∷ xs) ys c n = rw (client_with-left id xs ys c n) refl

client_with-joined :
    (id : ℕ) (cs : List Client) (c newcomer : Client)
    → client_with id cs ≡ some c
    → client_with id (cs ++ newcomer ∷ []) ≡ some c
client_with-joined id [] c newcomer e = cc
client_with-joined id (x ∷ cs) c newcomer e = ground (arith, client_with-joined id cs c newcomer)

ActsAs-other :
    {actor : ℕ} {R : ℕ → Bool → Type 0} {cs cs' : List Client} (id : ℕ)
    → actor ≢ id
    → ActsAs actor R cs cs'
    → client_with id cs' ≡ client_with id cs
ActsAs-other id n (rests e) = ap (client_with id) e
ActsAs-other id n (turns xs ys c c' k e e' t) =
    ap (client_with id) e'
    ∙ client_with-turned id xs ys c c' (λ same. n (sym k ∙ same))
        (λ same. n (sym k ∙ sym t.id ∙ same))
    ∙ ap (client_with id) (sym e)
ActsAs-other id n (leaves xs ys c k e e') =
    ap (client_with id) e'
    ∙ client_with-left id xs ys c (λ same. n (sym k ∙ same))
    ∙ ap (client_with id) (sym e)

module _ (w : FrameEndpoint GatewayAccessFrame) (m : SnetServiceMessage) (a : HdlcdAccess) where
  -- An event that is not one of the client itself.
  abbrev pub Spares : ℕ → Event w m a → Type 0
  Spares id (accepted o) = Unit
  Spares id (frame_read actor frame) = actor ≢ id
  Spares id (client_closed actor) = actor ≢ id
  Spares id (data_read index bytes) = Unit
  Spares id (completed index event) = Unit

  IsAllowed-Spares :
      (e : Event w m a) (id : ℕ) (cs cs' : List Client) (c : Client)
      → Spares id e
      → IsAllowed w m a e cs cs'
      → client_with id cs ≡ some c
      → client_with id cs' ≡ some c
  IsAllowed-Spares (accepted none) id cs cs' c n k found = ap (client_with id) k ∙ found
  IsAllowed-Spares (accepted (some x)) id cs cs' c n k found =
      ap (client_with id) k.joined ∙ client_with-joined id cs c k.newcomer found
  IsAllowed-Spares (frame_read actor frame) id cs cs' c n k found = ActsAs-other id n k ∙ found
  IsAllowed-Spares (client_closed actor) id cs cs' c n k found = ActsAs-other id n k.0 ∙ found
  IsAllowed-Spares (data_read index bytes) id cs cs' c n k found = ap (client_with id) k ∙ found
  IsAllowed-Spares (completed index event) id cs cs' c n k found = ap (client_with id) k ∙ found

  -- Whatever events a running gateway gets through without a fault, with a free address whenever a
  -- connection comes: as long as a client sends no frame itself and its connection does not end, it
  -- stays connected with the address, the framing mode and the subscriptions that it has. No other
  -- client, no daemon and no connection that comes or fails can change them.
  pub client_isolated :
      (es : List (Event w m a)) (g g' : Gateway w m a) (id : ℕ) (c : Client)
      → IsRunning w m a g
      → IsNeverFull w m a es g
      → All (Spares id) es
      → run w m a es g ≡ ok g'
      → client_with id (clients_of w m a g) ≡ some c
      → client_with id (clients_of w m a g') ≡ some c
  unfolding run
  client_isolated [] g g' id c v few others e found =
      let same : g ≡ g' = ground arith in
      subst (λ (u : Gateway w m a). client_with id (clients_of w m a u) ≡ some c) same found
  client_isolated (x ∷ es) g g' id c v few others e found =
      let (t, done, rest) = >>=-eq-ok (handle w m a x g) _ e in
      let allowed = handle_refines w m a x g t v few.0 done in
      client_isolated es t g' id c (handle-IsRunning w m a x g t few.0 done v) (rw done at few.1)
        others.1 rest
        (IsAllowed-Spares x id (clients_of w m a g) (clients_of w m a t) c others.0 allowed found)
