-- ===== src/MongoRepository/Upsert.antt =====
-- The collection of GPUs as a map from UUIDs: `Store` writes it and `GetByUUID` reads it.
use gpu_telemetry_pipeline.Base.{
  ◌≤◌, String, Bool, true, Option, none, some, List, [], ◌∷◌, ◌++◌, map, ◌⊎◌, inl, inr, ◌≡◌, refl,
  sym, ap, ap₂, subst, ◌∙◌, str_eq, str_eq_iff, if◌then◌else◌, lookup, insert, select, count,
  count-append, map-Splits, map-append, arith,
}
use gpu_telemetry_pipeline.Domain.{Gpu, gpu_not_found}
use gpu_telemetry_pipeline.Storage.{RepositoryError, known, driver_failed}
use gpu_telemetry_pipeline.Mongo.{
  Document, Collection, done, FindReply, Updates, Finds, Mongo, MongoLaws, meets, merge,
  value_holds,
}
use gpu_telemetry_pipeline.MongoRepository.{
  encode_gpu, decode_gpu, uuid_filter, gpu_update, store_gpu, get_by_uuid, gpu_of,
}

-- The GPU of a UUID.
abbrev pub gpu_named : String → List Gpu → Option Gpu
gpu_named uuid [] = none
gpu_named uuid (g ∷ gs) = if str_eq g.uuid uuid then some g else gpu_named uuid gs

abbrev pub is_named : String → Gpu → Bool
is_named uuid g = str_eq g.uuid uuid

-- No UUID stands twice.
abbrev pub IsKeyed : List Gpu → Type 0
IsKeyed gs = (uuid : String) → count (is_named uuid) gs ≤ 1

pub decode-encode_gpu : (g : Gpu) → decode_gpu (encode_gpu g) ≡ g
unfolding decode_gpu encode_gpu lookup
decode-encode_gpu g = refl

merge-encode_gpu : (g h : Gpu) → merge (encode_gpu g) (encode_gpu h) ≡ encode_gpu g
unfolding merge encode_gpu insert
merge-encode_gpu g h = refl

merge-uuid_filter : (g : Gpu) → merge (encode_gpu g) (merge (uuid_filter g.uuid) []) ≡ encode_gpu g
unfolding merge encode_gpu uuid_filter insert
merge-uuid_filter g = refl

meets-uuid_filter :
    (uuid : String) (g : Gpu) → meets (uuid_filter uuid) (encode_gpu g) ≡ is_named uuid g
unfolding meets uuid_filter encode_gpu value_holds insert lookup
meets-uuid_filter uuid g = ground arith

-- Replacing a GPU by one of the same UUID.
named-replaced :
    (front back : List Gpu) (h g : Gpu) (uuid : String)
    → str_eq h.uuid g.uuid ≡ true
    → count (is_named g.uuid) (front ++ h ∷ back) ≤ 1
    → gpu_named uuid (front ++ g ∷ back)
      ≡ (if str_eq g.uuid uuid then some g else gpu_named uuid (front ++ h ∷ back))
named-replaced [] back h g uuid e k =
    ground (arith, str_eq_iff h.uuid g.uuid, str_eq_iff h.uuid uuid, str_eq_iff g.uuid uuid)
named-replaced (x ∷ front) back h g uuid e k = ground (
  arith,
  named-replaced front back h g uuid e,
  str_eq_iff g.uuid uuid,
  str_eq_iff x.uuid uuid,
  str_eq_iff x.uuid g.uuid,
  count-append (is_named g.uuid) front (h ∷ back),
)

count-replaced :
    (front back : List Gpu) (h g : Gpu) (uuid : String)
    → str_eq h.uuid g.uuid ≡ true
    → count (is_named uuid) (front ++ g ∷ back) ≡ count (is_named uuid) (front ++ h ∷ back)
count-replaced front back h g uuid e =
    rw
      (
        count-append (is_named uuid) front (g ∷ back),
        count-append (is_named uuid) front (h ∷ back),
        (str_eq_iff h.uuid g.uuid).0 e,
      )
      refl

named-append :
    (gs : List Gpu) (g : Gpu) (uuid : String)
    → count (is_named g.uuid) gs ≡ 0
    → gpu_named uuid (gs ++ g ∷ []) ≡ (if str_eq g.uuid uuid then some g else gpu_named uuid gs)
named-append [] g uuid k = refl
named-append (x ∷ gs) g uuid k = ground (
  arith,
  named-append gs g uuid,
  str_eq_iff g.uuid uuid,
  str_eq_iff x.uuid uuid,
  str_eq_iff x.uuid g.uuid,
)

-- The filter by UUID selects nothing exactly when the count is zero.
none_selected :
    (uuid : String) (gs : List Gpu)
    → select (meets (uuid_filter uuid)) (map encode_gpu gs) ≡ []
    → (count (is_named uuid) gs ≡ 0) × (gpu_named uuid gs ≡ none)
none_selected uuid [] h = (refl, refl)
none_selected uuid (g ∷ gs) h = ground (arith, h, meets-uuid_filter uuid g, none_selected uuid gs)

named-split :
    (left right : List Gpu) (h : Gpu) (uuid : String)
    → str_eq h.uuid uuid ≡ true
    → count (is_named uuid) (left ++ h ∷ right) ≤ 1
    → gpu_named uuid (left ++ h ∷ right) ≡ some h
named-split [] right h uuid e k = ground (arith, e)
named-split (x ∷ left) right h uuid e k =
    ground
      (arith, e, named-split left right h uuid e, count-append (is_named uuid) left (h ∷ right))

-- The collection after a GPU is stored, as GPUs.
pub record Puts (g : Gpu) (before after : List Gpu) : Type 0 where
  pub keyed : IsKeyed after
  pub named :
      (uuid : String)
      → gpu_named uuid after ≡ (if str_eq g.uuid uuid then some g else gpu_named uuid before)

-- What a read by UUID may give: the GPU of the UUID, that there is none, or a failure.
pub data Gives (uuid : String) (gs : List Gpu) : RepositoryError ⊎ Gpu → Type 0 where
  gives : (g : Gpu) → gpu_named uuid gs ≡ some g → Gives uuid gs (inr g)
  unknown : gpu_named uuid gs ≡ none → Gives uuid gs (inl (known gpu_not_found))
  unread : Gives uuid gs (inl driver_failed)

module _ ⦃M : Mongo⦄ (L : MongoLaws M) where
  Updates-Puts :
      (g : Gpu) (gs : List Gpu) (after : List Document)
      → IsKeyed gs
      → Updates (gpu_update g) (map encode_gpu gs) after
      → (gs' : List Gpu) × (after ≡ map encode_gpu gs') × Puts g gs gs'
  unfolding gpu_update
  Updates-Puts g gs after k (Updates.changed front back doc split hit result) =
      let s = map-Splits encode_gpu gs front doc back split in
      let named : str_eq s.here.uuid g.uuid ≡ true =
        sym (meets-uuid_filter g.uuid s.here) ∙ ap (meets (uuid_filter g.uuid)) s.here_is ∙ hit in
      let bound : (uuid : String) → count (is_named uuid) (s.left ++ s.here ∷ s.right) ≤ 1 =
        subst IsKeyed s.is_split k in
      let written : merge (encode_gpu g) doc ≡ encode_gpu g =
        ap (merge (encode_gpu g)) (sym s.here_is) ∙ merge-encode_gpu g s.here in
      (
        s.left ++ g ∷ s.right,
        result
            ∙ ap (λ x. front ++ x ∷ back) written
            ∙ ap₂ (λ l r. l ++ encode_gpu g ∷ r) (sym s.left_is) (sym s.right_is)
            ∙ sym (map-append encode_gpu s.left (g ∷ s.right)),
        record {
          keyed =
              λ uuid. omega (arith, bound uuid, count-replaced s.left s.right s.here g uuid named);
          named = λ uuid.
              rw (s.is_split) (named-replaced s.left s.right s.here g uuid named (bound g.uuid));
        },
      )
  Updates-Puts g gs after k (Updates.inserted none_there upsert result) =
      let (absent, missing) = none_selected g.uuid gs none_there in
      (
        gs ++ g ∷ [],
        result
            ∙ ap (λ x. map encode_gpu gs ++ x ∷ []) (merge-uuid_filter g)
            ∙ sym (map-append encode_gpu gs (g ∷ [])),
        record {
          keyed = λ uuid. ground (
            arith,
            k uuid,
            absent,
            count-append (is_named uuid) gs (g ∷ []),
            str_eq_iff g.uuid uuid,
          );
          named = λ uuid. named-append gs g uuid absent;
        },
      )
  Updates-Puts g gs after k (Updates.unmatched none_there upsert result) = absurd (cc)

  -- In a collection of GPUs that holds no UUID twice, a store that returns no error writes the GPU
  -- under its UUID, in place of the one that was there: the collection holds GPUs again and no UUID
  -- twice, and every other UUID stands for what it did.
  pub store_gpu-Puts :
      (c : Collection) (g : Gpu) (gs : List Gpu) (d : M.Database)
      → IsKeyed gs
      → L.docs_of d c ≡ map encode_gpu gs
      → (store_gpu c g d).0 ≡ none
      → (gs' : List Gpu) × (L.docs_of (store_gpu c g d).1 c ≡ map encode_gpu gs') × Puts g gs gs'
  unfolding store_gpu
  store_gpu-Puts c g gs d k stored h =
      let ok : (M.update_one c (gpu_update g) d).0 ≡ done tt = ground (arith, h) in
      Updates-Puts g gs _ k (
        subst
          (λ docs. Updates (gpu_update g) docs (L.docs_of (M.update_one c (gpu_update g) d).1 c))
          stored (L.docs-update_one c (gpu_update g) d ok))

  Finds-Gives :
      (uuid : String) (gs : List Gpu) (docs : List Document) (r : FindReply)
      → IsKeyed gs
      → docs ≡ map encode_gpu gs
      → Finds (uuid_filter uuid) docs r
      → Gives uuid gs (gpu_of r)
  Finds-Gives uuid gs docs r k stored (Finds.hit front back doc split hit) =
      let s = map-Splits encode_gpu gs front doc back (sym stored ∙ split) in
      let named : str_eq s.here.uuid uuid ≡ true =
        sym (meets-uuid_filter uuid s.here) ∙ ap (meets (uuid_filter uuid)) s.here_is ∙ hit in
      let bound : count (is_named uuid) (s.left ++ s.here ∷ s.right) ≤ 1 =
        subst IsKeyed s.is_split k uuid in
      let same : decode_gpu doc ≡ s.here =
        ap decode_gpu (sym s.here_is) ∙ decode-encode_gpu s.here in
      gives (decode_gpu doc) (
        ap (gpu_named uuid) s.is_split
        ∙ named-split s.left s.right s.here uuid named bound
        ∙ ap some (sym same))
  Finds-Gives uuid gs docs r k stored (Finds.miss nothing) =
      unknown
        ((none_selected uuid gs (ap (select (meets (uuid_filter uuid))) (sym stored) ∙ nothing)).1)
  Finds-Gives uuid gs docs r k stored Finds.broken = unread

  -- In a collection of GPUs that holds no UUID twice, a read gives the GPU that its UUID stands for,
  -- says that there is none when there is none, or fails.
  pub get_by_uuid-Gives :
      (c : Collection) (uuid : String) (gs : List Gpu) (d : M.Database)
      → IsKeyed gs
      → L.docs_of d c ≡ map encode_gpu gs
      → Gives uuid gs (get_by_uuid c uuid d)
  unfolding get_by_uuid
  get_by_uuid-Gives c uuid gs d k stored =
      Finds-Gives uuid gs _ _ k stored (L.reply-find_one c (uuid_filter uuid) d)
