-- ===== src/Sizing/Requirements.antt =====
-- The requests and limits that a component gets.
use provider_altinity_clickh.Prelude.{ℕ, ◌<◌, ◌≡◌, refl, ◌↔◌, Option, none, some, arith}
use provider_altinity_clickh.Instance.{ResourceRequirements}
use provider_altinity_clickh.Sizing.{
  declared, effective_limit, effective_request, resource_requirements,
}

-- One resource: the request is above the limit only if both were declared so.
abbrev pub Conflicts : Option ℕ → Option ℕ → Type 0
Conflicts limit request =
    (l : ℕ) × (r : ℕ) × (declared limit ≡ some l) × (declared request ≡ some r) × (l < r)

conflict_of :
    (fallback : ℕ) (l r : Option ℕ)
    → effective_limit fallback l r < effective_request (effective_limit fallback l r) r
    → (a : ℕ) × (b : ℕ) × (l ≡ some a) × (r ≡ some b) × (a < b)
unfolding effective_limit effective_request
conflict_of fallback none none h = absurd (omega arith)
conflict_of fallback none (some b) h = absurd (ground arith)
conflict_of fallback (some a) none h = absurd (omega arith)
conflict_of fallback (some a) (some b) h = (a, b, refl, refl, h)

conflict_shows :
    (fallback a b : ℕ) (l r : Option ℕ)
    → l ≡ some a
    → r ≡ some b
    → a < b
    → effective_limit fallback l r < effective_request (effective_limit fallback l r) r
unfolding effective_limit effective_request
conflict_shows fallback a b l r e f h = ground arith

-- For each resource, the request that the pods get is above the limit exactly when both were
-- declared, not zero, and in conflict: the defaults never make one.
pub resource_requirements_conflict_iff :
    (r : ResourceRequirements) (cpu memory : ℕ)
    → let e = resource_requirements (some r) cpu memory in
      ((e.cpu_limit < e.cpu_request) ↔ Conflicts r.cpu_limit r.cpu_request)
      × ((e.memory_limit < e.memory_request) ↔ Conflicts r.memory_limit r.memory_request)
unfolding resource_requirements
resource_requirements_conflict_iff r cpu memory = (
  (conflict_of cpu _ _, λ c. conflict_shows cpu c.0 c.1 _ _ c.2 c.3 c.4),
  (conflict_of memory _ _, λ c. conflict_shows memory c.0 c.1 _ _ c.2 c.3 c.4),
)
