-- ===== src/Sql.antt =====
-- A SQL table as routemq/queue/database_queue.py uses it through SQLAlchemy. The database is no
-- part of the repository: it is a parameter, with the documented effect of each statement as laws.
pub mod Order
pub mod Middle
use route_mq.Prelude.{
  ℕ, suc, ◌≤◌, ◌<◌, ◌≡◌, Bool, not, List, ◌∷◌, [], ◌++◌, map, select, if◌then◌else◌,
}

-- A row: its primary key and its other columns.
pub record Keyed (V : Type 0) : Type 0 where
  pub id : ℕ
  pub columns : V

abbrev pub rewrite : {V : Type 0} → (Keyed V → Bool) → (V → V) → Keyed V → Keyed V
rewrite p f r = if p r then record r { columns = f r.columns } else r

pub record Table (V : Type 0) : Type 1 where
  pub State : Type 0
  -- SELECT * ORDER BY id
  pub rows : State → List (Keyed V)
  -- the value of AUTO_INCREMENT
  pub next_id : State → ℕ
  pub insert : V → State → State
  -- UPDATE SET f WHERE p
  pub update : (Keyed V → Bool) → (V → V) → State → State
  -- DELETE WHERE p
  pub delete : (Keyed V → Bool) → State → State
  pub rows-insert :
      (v : V) (s : State)
      → rows (insert v s) ≡ rows s ++ record { id = next_id s; columns = v } ∷ []
  pub rows-update :
      (p : Keyed V → Bool) (f : V → V) (s : State)
      → rows (update p f s) ≡ map (rewrite p f) (rows s)
  pub rows-delete :
      (p : Keyed V → Bool) (s : State) → rows (delete p s) ≡ select (λ r. not (p r)) (rows s)
  pub next_id-insert : (v : V) (s : State) → next_id s < next_id (insert v s)
  pub next_id-update :
      (p : Keyed V → Bool) (f : V → V) (s : State) → next_id s ≤ next_id (update p f s)
  pub next_id-delete : (p : Keyed V → Bool) (s : State) → next_id s ≤ next_id (delete p s)
