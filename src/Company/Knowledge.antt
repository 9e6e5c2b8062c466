-- ===== src/Company/Knowledge.antt =====
-- The knowledge items of a company (app/crm.py): `save_company_knowledge`, `list_company_knowledge`
-- and `archive_company_knowledge`. The content is JSON, as a client gives it.
use ollum_sales.Prelude.{
  ℕ, Bool, true, false, not, ◌&&◌, ◌||◌, List, [], ◌∷◌, Option, none, some, length, ltb, take, min,
  max, ◌==◌, if◌then◌else◌,
}
use ollum_sales.Text.{Text, text, same, strip, lower, collapse, is_empty, or_none, or_empty, one_of}
use ollum_sales.Exec.{
  pure, raise, gets, or_raise, modify, modify_unless, raise_if, transaction, ◌>>=◌, ◌>>◌,
}
use ollum_sales.Table.{find, select, count, update, insert, exists, first_by, sort_by}
use ollum_sales.Schema.{
  Db, KnowledgeItem, KnowledgeStatus, Crm, is_active_knowledge, bad_category, bad_title,
  source_type_too_long, source_name_too_long, not_grounded, too_large, knowledge_not_found,
  integrity_error, assertion_failed,
}
use ollum_sales.Workspaces.{workspace_id, require_workspace}
use ollum_sales.Company.{
  Library, Json, is_grounded, utf8_length, or_text, same_option, put_profile, reopen,
}

abbrev pub company_knowledge_categories : List Text
company_knowledge_categories =
    text "service"
    ∷ text "price"
    ∷ text "case"
    ∷ text "current_client"
    ∷ text "closed_client"
    ∷ text "faq"
    ∷ text "objection"
    ∷ text "constraint"
    ∷ text "proof"
    ∷ text "document"
    ∷ text "sales_process"
    ∷ []

-- `_validate_status`, for a column that keeps its text
abbrev pub validated : Text → List Text → Option Text
validated value allowed =
    let clean = lower (strip value) in if one_of clean allowed then some clean else none

-- What a save stores, checked and in its normal form.
pub record Content : Type 0 where
  pub category : Text
  pub title : Text
  pub content_json : Text
  pub source_type : Text
  pub source_name : Option Text

abbrev pub knowledge_at : Text → Text → KnowledgeItem → Bool
knowledge_at k id i = same i.id id && same i.workspace_id k

abbrev pub same_id : Text → KnowledgeItem → Bool
same_id id i = same i.id id

-- the second `SELECT`: an active item with this content
abbrev pub same_content : Text → Content → KnowledgeItem → Bool
same_content k c i =
    same i.workspace_id k
    && same i.category c.category
    && same i.title c.title
    && same i.content_json c.content_json
    && same i.source_type c.source_type
    && same (or_empty i.source_name) (or_empty c.source_name)
    && is_active_knowledge i.status

abbrev pub is_unchanged : Content → KnowledgeItem → Bool
is_unchanged c i =
    same i.category c.category
    && same i.title c.title
    && same i.content_json c.content_json
    && same i.source_type c.source_type
    && same_option i.source_name c.source_name
    && is_active_knowledge i.status

abbrev pub new_item : ℕ → Text → Text → Content → KnowledgeItem
new_item timestamp k id c = record {
  id = id;
  workspace_id = k;
  category = c.category;
  title = c.title;
  content_json = c.content_json;
  source_type = c.source_type;
  source_name = c.source_name;
  status = KnowledgeStatus.active;
  created_at = timestamp;
  updated_at = timestamp;
}

abbrev pub rewritten : ℕ → Content → KnowledgeItem → KnowledgeItem
rewritten timestamp c i = record i {
  category = c.category;
  title = c.title;
  content_json = c.content_json;
  source_type = c.source_type;
  source_name = c.source_name;
  status = KnowledgeStatus.active;
  updated_at = timestamp;
}

unfoldable pub put_item : ℕ → Text → Text → Content → Db → Db
put_item timestamp k id c db = record db {
  knowledge = insert (new_item timestamp k id c) db.knowledge;
}

unfoldable pub set_item : ℕ → Text → Text → Content → Db → Db
set_item timestamp k id c db = record db {
  knowledge = update (knowledge_at k id) (rewritten timestamp c) db.knowledge;
}

-- the insert or the update, and what follows it
unfoldable pub write_item : ℕ → Text → Text → Content → Bool → Crm KnowledgeItem
unfolding put_item set_item put_profile reopen
write_item timestamp k id c is_new = do
  taken ← gets (λ db. exists (same_id id) db.knowledge)
  if is_new
      then modify_unless taken integrity_error (put_item timestamp k id c)
      else modify (set_item timestamp k id c)
  modify (put_profile timestamp k)
  modify (reopen timestamp k)
  row ← gets (λ db. find (same_id id) db.knowledge)
  or_raise row assertion_failed

-- with the item of the id that is given, if there is one
unfoldable pub save_existing :
    ℕ → Text → Text → Content → Bool → Option KnowledgeItem → Crm KnowledgeItem
unfolding write_item
save_existing timestamp k id c named none =
    if named then raise knowledge_not_found else write_item timestamp k id c true
save_existing timestamp k id c named (some i) =
    if is_unchanged c i then pure i else write_item timestamp k id c false

abbrev pub oldest : KnowledgeItem → KnowledgeItem → Bool
oldest i j = ltb i.created_at j.created_at

-- with no id given, and no item under the new id
unfoldable pub save_fresh : ℕ → Text → Text → Content → Option KnowledgeItem → Crm KnowledgeItem
unfolding write_item
save_fresh timestamp k id c none = write_item timestamp k id c true
save_fresh timestamp k id c (some i) = pure i

-- the transaction of `save_company_knowledge`; `fresh` is the new random id
unfoldable pub save_row : ℕ → Text → Text → Option Text → Content → Crm KnowledgeItem
unfolding save_existing save_fresh
save_row timestamp fresh k none c = do
  existing ← gets (λ db. find (knowledge_at k fresh) db.knowledge)
  twin ← gets (λ db. first_by oldest (select (same_content k c) db.knowledge))
  elim existing [
    | none ↦ save_fresh timestamp k fresh c twin
    | some i ↦ save_existing timestamp k fresh c false (some i)
  ]
save_row timestamp fresh k (some item_id) c = do
  let id = or_text item_id fresh
  existing ← gets (λ db. find (knowledge_at k id) db.knowledge)
  save_existing timestamp k id c (not (is_empty item_id)) existing

-- the checks before the transaction
unfoldable pub checked_content : Library → Text → Text → Json → Text → Option Text → Crm Content
checked_content lib category title content source_type source_name = do
  clean_category ← or_raise (validated category company_knowledge_categories) bad_category
  let clean_title = collapse title
  raise_if (is_empty clean_title || ltb 240 (length clean_title)) bad_title
  let clean_source_type = or_text (collapse source_type) (text "chat")
  let clean_source_name = or_none (collapse (or_empty source_name))
  raise_if (ltb 80 (length clean_source_type)) source_type_too_long
  raise_if (ltb 500 (length (or_empty clean_source_name))) source_name_too_long
  raise_if (not (is_grounded content)) not_grounded
  let encoded = lib.dumps content
  raise_if (ltb 64000 (utf8_length encoded)) too_large
  pure (record {
    category = clean_category;
    title = clean_title;
    content_json = encoded;
    source_type = clean_source_type;
    source_name = clean_source_name;
  })

unfoldable pub save_company_knowledge :
    Library
    → ℕ
    → Text
    → Text
    → Text
    → Text
    → Json
    → Text
    → Option Text
    → Option Text
    → Crm KnowledgeItem
unfolding checked_content save_row require_workspace
save_company_knowledge lib timestamp fresh value category title content source_type source_name
      item_id =
    do
      k ← require_workspace value
      c ← checked_content lib category title content source_type source_name
      transaction (save_row timestamp fresh k item_id c)

abbrev pub is_in : Text → KnowledgeItem → Bool
is_in k i = same i.workspace_id k

abbrev pub newer : KnowledgeItem → KnowledgeItem → Bool
newer i j = ltb j.updated_at i.updated_at

-- `list_company_knowledge`, of the active items of all categories of a valid workspace id: those of a
-- workspace, in the order of their update, the last one first
unfoldable pub active_knowledge : Text → ℕ → Db → List KnowledgeItem
active_knowledge k limit db =
    take (max 1 (min limit 500))
      (sort_by newer (select (λ i. is_in k i && is_active_knowledge i.status) db.knowledge))

abbrev pub archived : ℕ → KnowledgeItem → KnowledgeItem
archived timestamp i = record i { status = KnowledgeStatus.archived; updated_at = timestamp }

abbrev pub active_at : Text → Text → KnowledgeItem → Bool
active_at k id i = same i.id id && same i.workspace_id k && is_active_knowledge i.status

unfoldable pub archive_item : ℕ → Text → Text → Db → Db
archive_item timestamp k id db = record db {
  knowledge = update (active_at k id) (archived timestamp) db.knowledge;
}

-- the transaction of `archive_company_knowledge`
unfoldable pub archive_row : ℕ → Text → Text → Crm KnowledgeItem
unfolding archive_item reopen
archive_row timestamp k id = do
  rowcount ← gets (λ db. count (active_at k id) db.knowledge)
  modify (archive_item timestamp k id)
  raise_if (not (rowcount == 1)) knowledge_not_found
  modify (reopen timestamp k)
  row ← gets (λ db. find (same_id id) db.knowledge)
  or_raise row assertion_failed

unfoldable pub archive_company_knowledge : ℕ → Text → Text → Crm KnowledgeItem
archive_company_knowledge timestamp value item_id = do
  k ← workspace_id value
  transaction (archive_row timestamp k item_id)
