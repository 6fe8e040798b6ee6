-- ===== src/Permissions/TagItems.antt =====
-- `filter_tag_items` (api/services/permissions.py): what a tag shows of collections and documents.
use mathlib.Core.Bool.{false≢true}
use mathlib.Core.Bool.{false≢true}
use embedbase.Auth.{Principal}
use embedbase.Http.{Check, ok, raise}
use embedbase.Permissions.Agreement.{readable_collection_ids-authorize}
use embedbase.Permissions.Authorize.{authorize_collection}
use embedbase.Permissions.Listing.{
  CollectionItem, DocumentItem, TagItems, filter_tag_items, readable_collection_ids,
}
use embedbase.Permissions.Resolve.{IsKeyed}
use embedbase.Prelude.{
  Bool, List, String, [], arith, contains, eq_refl, false, filter_by, map, refl, true, ◌↔◌, ◌∷◌,
  ◌≡◌,
}
use embedbase.Tables.{Db, read}

abbrev passes : Check → Bool
passes (ok tt) = true
passes (raise status detail) = false

-- does the check let the caller read a collection?
abbrev pub may_read : Db → Principal → String → Bool
may_read db p k = passes (authorize_collection db p k read)

allowed_iff : (c : Check) → (passes c ≡ true) ↔ (c ≡ ok tt)
allowed_iff (ok tt) = (λ _. refl, λ _. refl)
allowed_iff (raise s d) = (λ h. elim (false≢true h) [ ], λ h. ground arith)

same_truth : (a b : Bool) → (a ≡ true → b ≡ true) → (b ≡ true → a ≡ true) → a ≡ b
same_truth a b f g = ground (arith, f, g)

filter_by_same {ℓ} :
    {A : Type ℓ} (f g : A → Bool) (key : A → String) (xs : List A)
    → ((x : A) → contains (map key xs) (key x) ≡ true → f x ≡ g x)
    → filter_by f xs ≡ filter_by g xs
filter_by_same f g key [] e = refl
filter_by_same f g key (x ∷ xs) e = ground (
  arith,
  e x (ground (arith, eq_refl (key x))),
  filter_by_same f g key xs (λ y h. e y (ground (arith, h))),
)

-- the candidates that are kept are those that the check lets the caller read
kept_same {ℓ} :
    {A : Type ℓ} (db : Db) (p : Principal) (key : A → String) (xs : List A)
    → IsKeyed db
    → filter_by (λ x. contains (readable_collection_ids db p (map key xs)) (key x)) xs
      ≡ filter_by (λ x. may_read db p (key x)) xs
kept_same db p key xs keyed =
    filter_by_same (λ x. contains (readable_collection_ids db p (map key xs)) (key x))
      (λ x. may_read db p (key x)) key xs
      (λ x listed.
        let agree = readable_collection_ids-authorize db p (map key xs) (key x) keyed listed in
        let allowed = allowed_iff (authorize_collection db p (key x) read) in
        same_truth _ _ (λ h. allowed.1 (agree.0 h)) (λ h. agree.1 (allowed.0 h)))

-- Where the tables keep their primary keys, of the items of a tag exactly the collections that the
-- caller may read stay, and exactly the documents whose collection the caller may read as a whole,
-- each as it was and in their order.
pub filter_tag_items-authorize :
    (db : Db) (p : Principal) (items : TagItems)
    → IsKeyed db
    → ((filter_tag_items db p items).collections
        ≡ filter_by (λ (c : CollectionItem). may_read db p c.id) items.collections)
      × ((filter_tag_items db p items).documents
          ≡ filter_by (λ (d : DocumentItem). may_read db p d.collection_id) items.documents)
unfolding filter_tag_items
filter_tag_items-authorize db p items keyed = (
  kept_same db p (λ (c : CollectionItem). c.id) items.collections keyed,
  kept_same db p (λ (d : DocumentItem). d.collection_id) items.documents keyed,
)
