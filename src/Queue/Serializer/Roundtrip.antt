-- ===== src/Queue/Serializer/Roundtrip.antt =====
-- What comes back of a job's data.
use queue_forge.Queue.Serializer.{
  end, field, nil, cons, invalid_date, Fields, Items, plain, both, obj, parse_fields, arr,
  parse_items, last_date, parsed, convert_fields, date, parse_dates, convert_items, is_iso_date,
  convert_dates, text, Dates, Value,
}
use queue_forge.Base.{ap, false, if◌then◌else◌, refl, some, ◌≡◌, ◌≤◌}

-- No text looks like a date, and the dates are valid and have years of four digits.
mutual
  pub Clean : Value → Type 0
  Clean (text s) = is_iso_date s ≡ false
  Clean (date t) = t ≤ last_date
  Clean invalid_date = ⊥
  Clean (arr xs) = CleanItems xs
  Clean (obj fs) = CleanFields fs
  Clean (plain n) = Unit {0}

  pub CleanItems : Items → Type 0
  CleanItems nil = Unit {0}
  CleanItems (cons x xs) = Clean x × CleanItems xs

  pub CleanFields : Fields → Type 0
  CleanFields end = Unit {0}
  CleanFields (field k x fs) = Clean x × CleanFields fs

-- The dates are valid and have years of four digits.
mutual
  pub IsDated : Value → Type 0
  IsDated (text s) = Unit {0}
  IsDated (date t) = t ≤ last_date
  IsDated invalid_date = ⊥
  IsDated (arr xs) = AreDated xs
  IsDated (obj fs) = HaveDated fs
  IsDated (plain n) = Unit {0}

  pub AreDated : Items → Type 0
  AreDated nil = Unit {0}
  AreDated (cons x xs) = IsDated x × AreDated xs

  pub HaveDated : Fields → Type 0
  HaveDated end = Unit {0}
  HaveDated (field k x fs) = IsDated x × HaveDated fs

module _ (D : Dates) where
  -- The data with `new Date` for every text of the form of a date, and all else kept.
  mutual
    unfolding is_iso_date parsed

    pub retyped : Value → Value
    retyped (text s) = if is_iso_date s then parsed (D.parse s) else text s
    retyped (arr xs) = arr (retyped_items xs)
    retyped (obj fs) = obj (retyped_fields fs)
    retyped v = v

    pub retyped_items : Items → Items
    retyped_items nil = nil
    retyped_items (cons x xs) = cons (retyped x) (retyped_items xs)

    pub retyped_fields : Fields → Fields
    retyped_fields end = end
    retyped_fields (field k x fs) = field k (retyped x) (retyped_fields fs)

  mutual
    unfolding convert_dates convert_items convert_fields parse_dates parse_items parse_fields Clean
        CleanItems CleanFields parsed both

    value_back :
        (v : Value) → Clean v → (w : Value) × (convert_dates D v ≡ some w) × (parse_dates D w ≡ v)
    value_back (plain n) h = (plain n, refl, refl)
    value_back (text s) h = (text s, refl, rw h refl)
    value_back (date t) h = (text (D.iso t), refl, rw (D.iso_shape t h, D.parse-iso t h) refl)
    value_back invalid_date h = absurd h
    value_back (arr xs) h = let (w, e, b) = items_back xs h in (arr w, rw e refl, ap arr b)
    value_back (obj fs) h = let (w, e, b) = fields_back fs h in (obj w, rw e refl, ap obj b)

    items_back :
        (xs : Items)
        → CleanItems xs
        → (w : Items) × (convert_items D xs ≡ some w) × (parse_items D w ≡ xs)
    items_back nil h = (nil, refl, refl)
    items_back (cons x xs) h =
        let (v, e, b) = value_back x h.0 in
        let (w, f, c) = items_back xs h.1 in (cons v w, rw (e, f) refl, rw (b, c) refl)

    fields_back :
        (fs : Fields)
        → CleanFields fs
        → (w : Fields) × (convert_fields D fs ≡ some w) × (parse_fields D w ≡ fs)
    fields_back end h = (end, refl, refl)
    fields_back (field k x fs) h =
        let (v, e, b) = value_back x h.0 in
        let (w, f, c) = fields_back fs h.1 in (field k v w, rw (e, f) refl, rw (b, c) refl)

  mutual
    unfolding convert_dates convert_items convert_fields parse_dates parse_items parse_fields
        IsDated AreDated HaveDated retyped retyped_items retyped_fields parsed both

    value_retyped :
        (v : Value)
        → IsDated v
        → (w : Value) × (convert_dates D v ≡ some w) × (parse_dates D w ≡ retyped v)
    value_retyped (plain n) h = (plain n, refl, refl)
    value_retyped (text s) h = (text s, refl, refl)
    value_retyped (date t) h = (text (D.iso t), refl, rw (D.iso_shape t h, D.parse-iso t h) refl)
    value_retyped invalid_date h = absurd h
    value_retyped (arr xs) h = let (w, e, b) = items_retyped xs h in (arr w, rw e refl, ap arr b)
    value_retyped (obj fs) h = let (w, e, b) = fields_retyped fs h in (obj w, rw e refl, ap obj b)

    items_retyped :
        (xs : Items)
        → AreDated xs
        → (w : Items) × (convert_items D xs ≡ some w) × (parse_items D w ≡ retyped_items xs)
    items_retyped nil h = (nil, refl, refl)
    items_retyped (cons x xs) h =
        let (v, e, b) = value_retyped x h.0 in
        let (w, f, c) = items_retyped xs h.1 in (cons v w, rw (e, f) refl, rw (b, c) refl)

    fields_retyped :
        (fs : Fields)
        → HaveDated fs
        → (w : Fields) × (convert_fields D fs ≡ some w) × (parse_fields D w ≡ retyped_fields fs)
    fields_retyped end h = (end, refl, refl)
    fields_retyped (field k x fs) h =
        let (v, e, b) = value_retyped x h.0 in
        let (w, f, c) = fields_retyped fs h.1 in (field k v w, rw (e, f) refl, rw (b, c) refl)

  -- Data whose dates are valid and have years of four digits is serialized. Where no text in it has
  -- the form of such a date, it comes back from the queue as it was; else it comes back with every
  -- text of that form, at any depth, turned into what `new Date` makes of it, a date or an invalid
  -- one, and with all else as it was.
  pub serializer_roundtrip :
      ((v : Value) → Clean v → (w : Value) × (convert_dates D v ≡ some w) × (parse_dates D w ≡ v))
      × ((v : Value)
          → IsDated v
          → (w : Value) × (convert_dates D v ≡ some w) × (parse_dates D w ≡ retyped v))
  serializer_roundtrip = (value_back, value_retyped)
