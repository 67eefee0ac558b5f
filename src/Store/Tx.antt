-- ===== src/Store/Tx.antt =====
-- A transaction of the handlers (pool.Begin, queries.WithTx, tx.Commit and the deferred tx.Rollback):
-- its queries run one after another on a copy of the database, which takes the place of the
-- database when it commits.
use Prim.Native.String.{String}
use zymobrew.Base.{
  ℕ, Bool, true, false, ◌≡◌, subst, refl, Option, none, some, if◌then◌else◌, if_rule,
}
use zymobrew.Store.{Db, Reply, done, refused, Query, Outage, begin_query, commit_query}

-- A query has run, or the handler has given the transaction up with a response.
pub data Step (A : Type 0) : Type 0 where
  ran : Db → A → Step A
  failed : ℕ → String → Step A

abbrev pub Tx : Type 0 → Type 0
Tx A = Db → Step A

abbrev pub continue : {A B : Type 0} → Step A → (A → Tx B) → Step B
continue (ran db a) f = f a db
continue (failed s m) f = failed s m

infixl 5 ◌>>=◌ ◌>>◌
abbrev pub ◌>>=◌ : {A B : Type 0} → Tx A → (A → Tx B) → Tx B
◌>>=◌ m f db = continue (m db) f

abbrev pub ◌>>◌ : {A B : Type 0} → Tx A → Tx B → Tx B
m >> k = m >>= λ _. k

module _ {A : Type 0} where
  abbrev pub pure : A → Tx A
  pure a db = ran db a

  abbrev pub give_up : ℕ → String → Tx A
  give_up s m db = failed s m

  abbrev pub or_give_up : ℕ → String → Option A → Tx A
  or_give_up s m none = give_up s m
  or_give_up s m (some a) = pure a

  -- A query that answers a server error when the database fails it.
  abbrev pub query : Outage → Query → String → Tx A → Tx A
  query down q message run db = if down q then failed 500 message else run db

  unfoldable pub commit : Outage → String → ℕ → Db → Step A → Db × Reply A
  commit down message status db (failed s m) = (db, refused s m)
  commit down message status db (ran after a) =
      if down commit_query then (db, refused 500 message) else (after, done status a)

  unfoldable pub transaction : Outage → String → ℕ → Tx A → Db → Db × Reply A
  unfolding commit
  transaction down message status run db =
      if down begin_query then (db, refused 500 message) else commit down message status db (run db)

  -- How a transaction ends: in a refusal that changes nothing, or with all of its queries done.
  pub transaction-cases :
      (P : Db × Reply A → Type 0) (down : Outage) (message : String) (status : ℕ) (run : Tx A)
      (db : Db)
      → ((s : ℕ) (m : String) → P (db, refused s m))
      → ((after : Db) (a : A) → run db ≡ ran after a → P (after, done status a))
      → P (transaction down message status run db)
  unfolding transaction commit
  transaction-cases P down message status run db fails works =
      if_rule P (down begin_query) _ _ (λ _. fails 500 message) (λ _. committed (run db) refl)
    where
      committed : (s : Step A) → run db ≡ s → P (commit down message status db s)
      committed (failed s m) e = fails s m
      committed (ran after a) e =
          if_rule P (down commit_query) _ _ (λ _. fails 500 message) (λ _. works after a e)

module _ {A : Type 0} where
  -- What holds after a query that has run.
  abbrev pub Ends : (Db → A → Type 0) → Step A → Type 0
  Ends P (ran db a) = P db a
  Ends P (failed s m) = Unit

  pub query-Ends :
      (P : Db → A → Type 0) (down : Bool) (message : String) (step : Step A)
      → Ends P step
      → Ends P (if down then failed 500 message else step)
  query-Ends P true message step h = tt
  query-Ends P false message step h = h

  pub Ends-of :
      (P Q : Db → A → Type 0) (step : Step A)
      → ((db : Db) (a : A) → P db a → Q db a)
      → Ends P step
      → Ends Q step
  Ends-of P Q (ran db a) f h = f db a h
  Ends-of P Q (failed s m) f h = h

  pub Ends-step :
      (P : Db → A → Type 0) (step : Step A) (db : Db) (a : A)
      → Ends P step
      → step ≡ ran db a
      → P db a
  Ends-step P (ran d b) db a h e =
      let same : (d ≡ db) × (b ≡ a) = (cc, cc) in subst (P db) same.1 (subst (λ x. P x b) same.0 h)
  Ends-step P (failed s m) db a h e = cc

  -- How a transaction ends whose queries end in `Q`.
  pub transaction-Ends :
      (P : Db × Reply A → Type 0) (Q : Db → A → Type 0) (down : Outage) (message : String)
      (status : ℕ) (run : Tx A) (db : Db)
      → ((s : ℕ) (m : String) → P (db, refused s m))
      → Ends Q (run db)
      → ((after : Db) (a : A) → Q after a → P (after, done status a))
      → P (transaction down message status run db)
  transaction-Ends P Q down message status run db fails ends works =
      transaction-cases P down message status run db fails
        (λ after a e. works after a (Ends-step Q (run db) after a ends e))

pub continue-Ends :
    {A B : Type 0} (P : Db → A → Type 0) (Q : Db → B → Type 0) (step : Step A) (f : A → Tx B)
    → Ends P step
    → ((db : Db) (a : A) → P db a → Ends Q (f a db))
    → Ends Q (continue step f)
continue-Ends P Q (ran db a) f h next = next db a h
continue-Ends P Q (failed s m) f h next = tt

pub or_give_up-Ends :
    {A B : Type 0} (Q : Db → B → Type 0) (s : ℕ) (m : String) (o : Option A) (f : A → Tx B)
    (db : Db)
    → ((a : A) → o ≡ some a → Ends Q (f a db))
    → Ends Q (continue (or_give_up s m o db) f)
or_give_up-Ends Q s m none f db next = tt
or_give_up-Ends Q s m (some a) f db next = next a refl
