-- ===== src/Batches/Handlers/Examples.antt =====
-- The batch handlers on a small database.
use zymobrew.Base.{◌≡◌, refl, [], ◌∷◌, none, some, codes, is_empty, arith, select, All}
use mathlib.Core.List.{Perm}
use zymobrew.Base.Int.{pos}
use zymobrew.Schema.{Batch, Recipe, planning, public, private, batch_start}
use zymobrew.Schema.Labels.{batch_stage_of, visibility_of}
use zymobrew.Store.{Db, done}
use zymobrew.Page.Order.{newest_first}
use zymobrew.Page.Request.{parse_limit, atoi}
use zymobrew.Page.Listing.{sort_rows}
use zymobrew.Page.Listing.Sorted.{IsSorted}
use zymobrew.Page.Examples.{toy, toy-IsFaithful, year_70}
use zymobrew.Batches.{template_params, get_batch_for_user, update_batch, patch_batch}
use zymobrew.Batches.Events.{handle_create_batch_event, handle_update_batch_event}
use zymobrew.Batches.Events.Laws.{ErrorKeeps}
use zymobrew.Batches.Events.Outcomes.{Settled}
use zymobrew.Batches.Examples.{
  mead, before, here, healthy, pitched, renamed, before-HasKey, templates-HasKey,
}
use zymobrew.Batches.Handlers.{
  CreateBatchRequest, UpdateBatchRequest, new_batch, handle_create_batch, handle_update_batch,
  handle_delete_batch, listed_key, brewed_by, create_pinned, rewrite_batch,
}
use zymobrew.Batches.Handlers.Laws.{batch-ErrorKeeps}
use zymobrew.Batches.Handlers.Owners.{Apart, foreign_kept}
use zymobrew.Batches.Handlers.Pinned.{IsPinned, created-IsPinned, restart_settles}
use zymobrew.Batches.Handlers.Pages.{batch_walk, batch_walk_complete, IsListable}

abbrev traditional : Recipe
traditional = record {
  id = 8;
  author_id = 4;
  parent_id = none;
  parent_revision_id = none;
  current_revision_id = some 81;
  revision_count = 1;
  fork_count = 0;
  brew_type = codes "mead";
  style = none;
  name = codes "old";
  description = none;
  targets = record { target_og = none; target_fg = none; target_abv = none; batch_size_l = none };
  visibility = public;
  created_at = pos 0;
  updated_at = pos 0;
}

abbrev stocked : Db
stocked = record before { recipes = traditional ∷ [] }

abbrev asked : CreateBatchRequest
asked = record {
  name = codes "new";
  brew_type = [];
  stage = [];
  started_at = some (pos 20);
  notes = [];
  visibility = codes "private";
  recipe_id = some (some 8);
}

abbrev restarted : UpdateBatchRequest
restarted = record {
  name = none;
  stage = none;
  notes = none;
  started_at = some (pos 30);
  bottled_at = none;
  visibility = none;
}

abbrev made : Batch
made = new_batch here 3 asked (some 8) (some 81) planning private

batch-ErrorKeeps_example :
    ErrorKeeps stocked (handle_create_batch here healthy 4 (some asked) stocked)
    × ErrorKeeps stocked (handle_update_batch here healthy 4 (some 7) (some restarted) stocked)
    × ErrorKeeps stocked (handle_delete_batch here healthy 4 (some 7) stocked)
batch-ErrorKeeps_example =
    batch-ErrorKeeps here healthy 4 stocked (some 7) (some asked) (some restarted)

foreign_kept_example :
    Apart here healthy 3 stocked (handle_create_batch here healthy 3 (some asked) stocked)
    × Apart here healthy 3 stocked
        (handle_update_batch here healthy 3 (some 7) (some restarted) stocked)
    × Apart here healthy 3 stocked (handle_delete_batch here healthy 3 (some 7) stocked)
    × Apart here healthy 3 stocked
        (handle_create_batch_event here healthy 3 (some 7) (some pitched) stocked)
    × Apart here healthy 3 stocked
        (handle_update_batch_event here healthy 3 (some 7) (some 1) (some renamed) stocked)
foreign_kept_example =
    foreign_kept here healthy 3 stocked (some 7) (some 1) (some asked) (some restarted)
      (some pitched) (some renamed)

answered : (handle_create_batch here healthy 3 (some asked) stocked).1 ≡ done 201 made
unfolding handle_create_batch create_pinned is_empty batch_stage_of visibility_of
answered = refl

created-IsPinned_example : IsPinned 3 stocked.recipes made
created-IsPinned_example = created-IsPinned here healthy 3 stocked (some asked) made answered

abbrev moved : Batch
moved = record mead { started_at = some (pos 30); updated_at = pos 50 }

changed : (handle_update_batch here healthy 3 (some 7) (some restarted) stocked).1 ≡ done 200 moved
unfolding handle_update_batch rewrite_batch get_batch_for_user update_batch patch_batch
changed = refl

restart_settles_example :
    Settled here healthy 3 stocked
      (template_params moved 8 batch_start (pos 30))
      (handle_update_batch here healthy 3 (some 7) (some restarted) stocked).0
restart_settles_example =
    restart_settles here healthy 3 stocked templates-HasKey refl refl (some 7) restarted moved 8
      (pos 30) (pos 30) refl refl refl changed

one : parse_limit (codes "1") ≡ some 1
unfolding parse_limit atoi
one = refl

listable : All IsListable stocked.batches
listable = ((year_70 0 (omega arith), omega arith), tt)

batch_walk_complete_example :
    let mine = select (brewed_by 3) stocked.batches in
    (batch_walk toy toy-IsFaithful 3 stocked 2 (codes "1")
      ≡ some (sort_rows newest_first listed_key mine))
    × IsSorted newest_first listed_key (sort_rows newest_first listed_key mine)
    × Perm (sort_rows newest_first listed_key mine) mine
batch_walk_complete_example =
    batch_walk_complete toy toy-IsFaithful 3 stocked (codes "1") 1 2 before-HasKey listable one
      (omega arith)
