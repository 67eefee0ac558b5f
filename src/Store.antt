-- ===== src/Store.antt =====
-- The database that the handlers share, their replies, and the queries that can fail.
pub mod Tx
use Prim.Native.String.{String}
use zymobrew.Base.{ℕ, ◌≡◌, Bool, List, Bytes, Option}
use zymobrew.Base.Int.{ℤ}
use zymobrew.Schema.{Batch, Recipe, Template, Reminder, EventKind}
use zymobrew.Schema.Recipes.{
  RecipeRevision, RecipeIngredient, RecipeComment, RecipeLike, IngredientSnap,
}

pub record BatchEvent : Type 0 where
  pub id : ℕ
  pub batch_id : ℕ
  pub occurred_at : ℤ
  pub kind : EventKind
  pub title : Option Bytes
  pub description : Option Bytes
  pub details : Bytes

pub record Db : Type 0 where
  pub batches : List Batch
  pub events : List BatchEvent
  pub recipes : List Recipe
  pub templates : List Template
  pub reminders : List Reminder
  pub revisions : List RecipeRevision
  pub ingredients : List RecipeIngredient
  pub comments : List RecipeComment
  pub likes : List RecipeLike

-- A written response: a status with a value, or an error status with its message.
pub data Reply (A : Type 0) : Type 0 where
  done : ℕ → A → Reply A
  refused : ℕ → String → Reply A

-- An error is no answer, and an answer has one value.
pub refused-ne-done :
    {A : Type 0} {s s' : ℕ} {m : String} {a : A} → ◌≡◌ {A = Reply A} (refused s m) (done s' a) → ⊥
refused-ne-done h = cc

pub done_inj : {A : Type 0} {s s' : ℕ} {a b : A} → ◌≡◌ {A = Reply A} (done s a) (done s' b) → a ≡ b
done_inj h = cc

-- The queries of one request, with the start and the end of its transaction. A request makes each at
-- most once, so an outage is the set of those that fail with a server error; the insertions of a list
-- of ingredients are told apart by their place.
pub data Query : Type 0 where
  get_batch_query create_event_query update_event_query delete_event_query : Query
  reanchor_query materialize_query update_batch_query create_batch_query delete_batch_query : Query
  get_recipe_query create_reminder_query list_reminders_query update_reminder_query : Query
  cancel_reminder_query : Query
  begin_query commit_query create_recipe_query create_revision_query set_revision_query : Query
  update_recipe_query delete_ingredients_query list_ingredients_query delete_recipe_query : Query
  get_revision_query list_revisions_query fork_count_query create_comment_query : Query
  delete_comment_query like_query unlike_query : Query
  create_ingredient_query : ℕ → Query

abbrev pub Outage : Type 0
Outage = Query → Bool

-- The NUMERIC columns by precision and scale: (5,3), (4,2), (6,2) and (10,3).
pub data NumericColumn : Type 0 where
  gravity abv volume amount_column : NumericColumn

-- What a request takes from outside: the clock, the ids of new rows, the parsers and printers of the
-- standard library, and how Postgres stores numbers and JSON.
pub record World : Type 0 where
  pub now : ℤ
  pub new_event_id : ℕ
  pub new_batch_id : ℕ
  pub new_reminder_id : ℕ → ℕ
  pub created_reminder_id : ℕ
  pub json_valid : Bytes → Bool
  pub parse_rfc3339 : Bytes → Option ℤ  -- time.Parse(time.RFC3339, _)
  pub new_recipe_id : ℕ
  pub new_revision_id : ℕ
  pub new_ingredient_id : ℕ → ℕ
  pub new_comment_id : ℕ
  pub itoa : ℕ → String
  pub parse_int32 : Bytes → Option ℤ  -- strconv.ParseInt(_, 10, 32)
  pub format_time : ℤ → Bytes
  pub marshal_ingredients : List IngredientSnap → Bytes  -- json.Marshal
  pub numeric_of : ℕ → Option ℕ  -- Numeric.Scan of a float64's decimal text
  pub float_of : ℕ → Option ℕ  -- Numeric.Float64Value
  pub round_to : NumericColumn → ℕ → Option ℕ  -- the value that a column keeps, if it is in range
  pub to_jsonb : Bytes → Option Bytes  -- the text of a JSONB value, if it is accepted
