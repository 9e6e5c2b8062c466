-- ===== src/Settings/Bounds.antt =====
-- The bounds of the conversation agent's settings (app/crm.py): what an update assigns.

use ollum_sales.Prelude.{
  ℕ, ◌≤◌, ◌≡◌, refl, Bool, true, false, List, [], ◌∷◌, none, some, ltb, length, take, length-take,
  All, arith, Bool-cases, inl, inr, if◌then◌else◌,
}
use ollum_sales.Text.{Text, collapse, is_empty, strip, lower, one_of, or_none, or_empty}
use ollum_sales.Exec.{
  ok, Reads, pure, or_raise, raise_if, ◌>>=◌, reader_keeps, or_raise-Reads, raise_if-Reads,
  bind_returned, raise_if_returned, or_raise_returned, pure_returned,
}
use ollum_sales.Schema.{Db, AgentSettings, Failure, field_too_long, bad_autonomy_mode, not_a_list}
use ollum_sales.Company.Knowledge.{validated}
use ollum_sales.Settings.{
  conversation_autonomy_modes, FlagSetting, TextSetting, ListSetting, NumberSetting, Setting,
  Assignment, flag, autonomy_mode, words, lines, number, unsupported, set_flag, set_mode, set_words,
  set_lines, set_number, clamped, text_limit, clean_items, clean_setting, clean_settings, assign,
  assign_all,
}

-- A list of at most thirty texts of at most 500 characters.
abbrev IsListed : List Text → Type 0
IsListed xs = (length xs ≤ 30) × All (λ (x : Text). length x ≤ 500) xs

-- Settings as the agent may read them.
abbrev pub IsBounded : AgentSettings → Type 0
IsBounded s =
    (one_of s.autonomy_mode conversation_autonomy_modes ≡ true)
    × ((4 ≤ s.max_context_messages) × (s.max_context_messages ≤ 30))
    × ((120 ≤ s.max_reply_chars) × (s.max_reply_chars ≤ 700))
    × ((1 ≤ s.max_inbound_age_hours) × (s.max_inbound_age_hours ≤ 720))
    × ((5 ≤ s.response_sla_minutes) × (s.response_sla_minutes ≤ 10080))
    × ((40 ≤ s.confidence_threshold) × (s.confidence_threshold ≤ 95))
    × IsListed s.qualification_questions
    × IsListed s.forbidden_topics
    × IsListed s.escalation_rules

abbrev pub IsValid : Assignment → Type 0
IsValid (set_mode mode) = one_of mode conversation_autonomy_modes ≡ true
IsValid (set_lines name v) = IsListed v
IsValid (set_number name n) = clamped name n ≡ n
IsValid _ = Unit

assign-IsBounded :
    (a : Assignment) (s : AgentSettings) → IsValid a → IsBounded s → IsBounded (assign a s)
assign-IsBounded (set_flag FlagSetting.enabled b) s v h = h
assign-IsBounded (set_flag FlagSetting.auto_create_inbound_leads b) s v h = h
assign-IsBounded (set_mode mode) s v (m, c, r, a, l, f, q, t, e) = (v, c, r, a, l, f, q, t, e)
assign-IsBounded (set_words TextSetting.niche t) s v h = h
assign-IsBounded (set_words TextSetting.objective t) s v h = h
assign-IsBounded (set_words TextSetting.instructions t) s v h = h
assign-IsBounded (set_words TextSetting.tone t) s v h = h
assign-IsBounded (set_lines ListSetting.qualification_questions xs) s v
      (m, c, r, a, l, f, q, t, e) =
    (m, c, r, a, l, f, v, t, e)
assign-IsBounded (set_lines ListSetting.forbidden_topics xs) s v (m, c, r, a, l, f, q, t, e) =
    (m, c, r, a, l, f, q, v, e)
assign-IsBounded (set_lines ListSetting.escalation_rules xs) s v (m, c, r, a, l, f, q, t, e) =
    (m, c, r, a, l, f, q, t, v)
assign-IsBounded (set_number NumberSetting.max_context_messages n) s v (m, c, r, a, l, f, q, t, e) =
    (m, (omega (arith, v), omega (arith, v)), r, a, l, f, q, t, e)
assign-IsBounded (set_number NumberSetting.max_reply_chars n) s v (m, c, r, a, l, f, q, t, e) =
    (m, c, (omega (arith, v), omega (arith, v)), a, l, f, q, t, e)
assign-IsBounded (set_number NumberSetting.max_inbound_age_hours n) s v
      (m, c, r, a, l, f, q, t, e) =
    (m, c, r, (omega (arith, v), omega (arith, v)), l, f, q, t, e)
assign-IsBounded (set_number NumberSetting.response_sla_minutes n) s v (m, c, r, a, l, f, q, t, e) =
    (m, c, r, a, (omega (arith, v), omega (arith, v)), f, q, t, e)
assign-IsBounded (set_number NumberSetting.confidence_threshold n) s v (m, c, r, a, l, f, q, t, e) =
    (m, c, r, a, l, (omega (arith, v), omega (arith, v)), q, t, e)

pub assign_all-IsBounded :
    (bs : List Assignment) (s : AgentSettings)
    → All IsValid bs
    → IsBounded s
    → IsBounded (assign_all bs s)
unfolding assign_all
assign_all-IsBounded [] s v h = h
assign_all-IsBounded (a ∷ bs) s v h =
    assign_all-IsBounded bs (assign a s) v.1 (assign-IsBounded a s v.0 h)

clean_items-length : (items : List Text) → length (clean_items items) ≤ length items
unfolding clean_items
clean_items-length [] = omega arith
clean_items-length (item ∷ items) = ground (arith, clean_items-length items)

clean_items-short : (items : List Text) → All (λ (x : Text). length x ≤ 500) (clean_items items)
unfolding clean_items
clean_items-short [] = tt
clean_items-short (item ∷ items) = elim (Bool-cases (is_empty (collapse item))) [
  | inl e ↦ rw e (clean_items-short items)
  | inr e ↦ rw e (omega (arith, length-take 500 (collapse item)), clean_items-short items)
]

clamped_idem : (name : NumberSetting) (n : ℕ) → clamped name (clamped name n) ≡ clamped name n
clamped_idem NumberSetting.max_context_messages n = omega arith
clamped_idem NumberSetting.max_reply_chars n = omega arith
clamped_idem NumberSetting.max_inbound_age_hours n = omega arith
clamped_idem NumberSetting.response_sla_minutes n = omega arith
clamped_idem NumberSetting.confidence_threshold n = omega arith

validated-one_of :
    (value clean : Text) (allowed : List Text)
    → validated value allowed ≡ some clean
    → one_of clean allowed ≡ true
validated-one_of value clean allowed h = go (one_of (lower (strip value)) allowed) refl h
  where
    go :
        (b : Bool)
        → one_of (lower (strip value)) allowed ≡ b
        → (if b then some (lower (strip value)) else none) ≡ some clean
        → one_of clean allowed ≡ true
    go true e h = cc
    go false e h = absurd (ground arith)

clean_setting-IsValid :
    (f : Setting) (db db' : Db) (a : Assignment) → clean_setting f db ≡ (ok a, db') → IsValid a
unfolding clean_setting
clean_setting-IsValid (flag name b) db db' a h =
    rw (pure_returned {E = Failure} (set_flag name b) a db db' h).0 tt
clean_setting-IsValid (autonomy_mode value) db db' a h =
    let (clean, e, k) =
      or_raise_returned (validated value conversation_autonomy_modes) bad_autonomy_mode
        (λ m. pure (set_mode m)) db db' a h in
    rw (pure_returned {E = Failure} (set_mode clean) a db db' k).0
      (validated-one_of value clean conversation_autonomy_modes e)
clean_setting-IsValid (words name value) db db' a h =
    let clean = collapse (or_empty value) in
    let (e, k) =
      raise_if_returned (ltb (text_limit name) (length clean)) field_too_long
        (pure (set_words name (or_none clean))) db db' a h in
    rw (pure_returned {E = Failure} (set_words name (or_none clean)) a db db' k).0 tt
clean_setting-IsValid (lines name value) db db' a h =
    let (items, e, k) =
      or_raise_returned value not_a_list (λ xs. pure (set_lines name (clean_items (take 30 xs)))) db
        db' a h in
    rw (pure_returned {E = Failure} (set_lines name (clean_items (take 30 items))) a db db' k).0 (
      omega (arith, clean_items-length (take 30 items), length-take 30 items),
      clean_items-short (take 30 items),
    )
clean_setting-IsValid (number name n) db db' a h =
    rw (pure_returned {E = Failure} (set_number name (clamped name n)) a db db' h).0
      (clamped_idem name n)
clean_setting-IsValid (unsupported name) db db' a h = absurd (ground arith)

clean_setting-Reads : (f : Setting) → Reads (clean_setting f)
unfolding clean_setting
clean_setting-Reads (flag name b) db = refl
clean_setting-Reads (autonomy_mode value) db =
    reader_keeps (λ s. s ≡ db)
      (or_raise (validated value conversation_autonomy_modes) bad_autonomy_mode)
      (λ m. pure (set_mode m)) db
      (or_raise-Reads (validated value conversation_autonomy_modes) bad_autonomy_mode db) refl
      (λ _. refl)
clean_setting-Reads (words name value) db =
    reader_keeps (λ s. s ≡ db)
      (raise_if (ltb (text_limit name) (length (collapse (or_empty value)))) field_too_long)
      (λ _. pure (set_words name (or_none (collapse (or_empty value))))) db
      (raise_if-Reads (ltb (text_limit name) (length (collapse (or_empty value)))) field_too_long
        db)
      refl (λ _. refl)
clean_setting-Reads (lines name value) db =
    reader_keeps (λ s. s ≡ db) (or_raise value not_a_list)
      (λ xs. pure (set_lines name (clean_items (take 30 xs)))) db
      (or_raise-Reads value not_a_list db) refl (λ _. refl)
clean_setting-Reads (number name n) db = refl
clean_setting-Reads (unsupported name) db = refl

pub clean_settings-Reads : (fields : List Setting) → Reads (clean_settings fields)
unfolding clean_settings
clean_settings-Reads [] db = refl
clean_settings-Reads (f ∷ fields) db =
    reader_keeps (λ s. s ≡ db) (clean_setting f)
      (λ a. clean_settings fields >>= λ rest. pure (a ∷ rest)) db (clean_setting-Reads f db) refl
      (λ a.
        reader_keeps (λ s. s ≡ db) (clean_settings fields) (λ rest. pure (a ∷ rest)) db
          (clean_settings-Reads fields db) refl (λ _. refl))

pub clean_settings-IsValid :
    (fields : List Setting) (db db' : Db) (bs : List Assignment)
    → clean_settings fields db ≡ (ok bs, db')
    → All IsValid bs
unfolding clean_settings
clean_settings-IsValid [] db db' bs h = rw (pure_returned {E = Failure} [] bs db db' h).0 tt
clean_settings-IsValid (f ∷ fields) db db' bs h =
    let (a, t, e, k) =
      bind_returned (clean_setting f) (λ a. clean_settings fields >>= λ rest. pure (a ∷ rest)) db
        db' bs h in
    let (rest, u, e', k') =
      bind_returned (clean_settings fields) (λ rest. pure (a ∷ rest)) t db' bs k in
    rw (pure_returned {E = Failure} (a ∷ rest) bs u db' k').0
      (clean_setting-IsValid f db t a e, clean_settings-IsValid fields t u rest e')
