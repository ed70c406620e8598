-- ===== src/Http/Sound.antt =====
-- src/http_transport.cpp: the invariant on the map of sessions.
use cppmcp.Base.{ℕ, suc, ◌≤◌, ◌≡◌, refl, ◌⊎◌, true, [], ◌∷◌, length, All, arith, inl, inr}
use cppmcp.Map.{
  Map, insert, erase, adjust, length-insert, length-adjust, length-erase, All-insert, All-erase,
  All-adjust, All-adjust_kept,
}
use cppmcp.Text.{Bytes, bytes_eq, bytes_ord}
use cppmcp.Http.Transport.{HttpTransport, HttpSession}

abbrev pub IsLive : Bytes × HttpSession → Type 0
IsLive (session_id, s) = s.initialized ≡ true

-- A cap of 0 is none.
pub record SessionsOk (max_sessions : ℕ) (sessions : Map Bytes HttpSession) : Type 0 where
  pub bound : (max_sessions ≡ 0) ⊎ (length sessions ≤ max_sessions)
  pub live : All IsLive sessions

-- While the initialize request of the session `session_id` runs.
pub record SessionsOkBut (session_id : Bytes) (max_sessions : ℕ) (sessions : Map Bytes HttpSession)
    : Type 0 where
  pub bound : (max_sessions ≡ 0) ⊎ (length sessions ≤ max_sessions)
  pub live : All (λ (entry : Bytes × HttpSession). (entry.0 ≡ session_id) ⊎ IsLive entry) sessions

abbrev pub IsSound : HttpTransport → Type 0
IsSound t = SessionsOk t.config.max_sessions t.sessions

pub bound-shrinks : (max n m : ℕ) → m ≤ n → (max ≡ 0) ⊎ (n ≤ max) → (max ≡ 0) ⊎ (m ≤ max)
bound-shrinks max n m le (inl e) = inl e
bound-shrinks max n m le (inr h) = inr (omega arith)

All-weaken :
    (session_id : Bytes) (m : Map Bytes HttpSession)
    → All IsLive m
    → All (λ (entry : Bytes × HttpSession). (entry.0 ≡ session_id) ⊎ IsLive entry) m
All-weaken session_id [] h = tt
All-weaken session_id (entry ∷ m) (live, h) = (inr live, All-weaken session_id m h)

-- An update that leaves a session initialized.
pub SessionsOk-adjust :
    (f : HttpSession → HttpSession) (session_id : Bytes) (max : ℕ) (m : Map Bytes HttpSession)
    → ((s : HttpSession) → s.initialized ≡ true → (f s).initialized ≡ true)
    → SessionsOk max m
    → SessionsOk max (adjust f session_id m)
SessionsOk-adjust f session_id max m keeps ok = record {
  bound = bound-shrinks max (length m) _ (omega (arith, length-adjust f session_id m)) ok.bound;
  live = All-adjust_kept IsLive f session_id m (λ j s h. keeps s h) ok.live;
}

pub SessionsOk-erase :
    (session_id : Bytes) (max : ℕ) (m : Map Bytes HttpSession)
    → SessionsOk max m
    → SessionsOk max (erase session_id m)
SessionsOk-erase session_id max m ok = record {
  bound = bound-shrinks max (length m) _ (length-erase session_id m) ok.bound;
  live = All-erase IsLive session_id m (All-weaken session_id m ok.live);
}

pub SessionsOkBut-insert :
    (session_id : Bytes) (s : HttpSession) (max : ℕ) (m : Map Bytes HttpSession)
    → (max ≡ 0) ⊎ (suc (length m) ≤ max)
    → SessionsOk max m
    → SessionsOkBut session_id max (insert session_id s m)
SessionsOkBut-insert session_id s max m room ok = record {
  bound = bound-shrinks max (suc (length m)) _ (length-insert session_id s m) room;
  live = All-insert _ session_id s m (inl refl) (All-weaken session_id m ok.live);
}

pub SessionsOkBut-adjust :
    (f : HttpSession → HttpSession) (session_id : Bytes) (max : ℕ) (m : Map Bytes HttpSession)
    → SessionsOkBut session_id max m
    → SessionsOkBut session_id max (adjust f session_id m)
SessionsOkBut-adjust f session_id max m ok = record {
  bound = bound-shrinks max (length m) _ (omega (arith, length-adjust f session_id m)) ok.bound;
  live = All-adjust _ f session_id m (λ s. inl refl) (All-inr session_id m ok.live);
}
  where
    All-inr :
        (k : Bytes) (m : Map Bytes HttpSession)
        → All (λ (entry : Bytes × HttpSession). (entry.0 ≡ k) ⊎ IsLive entry) m
        → All (λ (entry : Bytes × HttpSession). (entry.0 ≡ k) ⊎ ((entry.0 ≡ k) ⊎ IsLive entry)) m
    All-inr k [] h = tt
    All-inr k (entry ∷ m) (p, h) = (inr p, All-inr k m h)

-- The end of initialize: the session is initialized, or gone.
pub SessionsOk-initialized :
    (f : HttpSession → HttpSession) (session_id : Bytes) (max : ℕ) (m : Map Bytes HttpSession)
    → ((s : HttpSession) → (f s).initialized ≡ true)
    → SessionsOkBut session_id max m
    → SessionsOk max (adjust f session_id m)
SessionsOk-initialized f session_id max m live ok = record {
  bound = bound-shrinks max (length m) _ (omega (arith, length-adjust f session_id m)) ok.bound;
  live = All-adjust IsLive f session_id m live ok.live;
}

pub SessionsOk-rolled_back :
    (session_id : Bytes) (max : ℕ) (m : Map Bytes HttpSession)
    → SessionsOkBut session_id max m
    → SessionsOk max (erase session_id m)
SessionsOk-rolled_back session_id max m ok = record {
  bound = bound-shrinks max (length m) _ (length-erase session_id m) ok.bound;
  live = All-erase IsLive session_id m ok.live;
}
