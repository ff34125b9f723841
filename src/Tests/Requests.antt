-- ===== src/Tests/Requests.antt =====
-- Names, paths and errors of requests at concrete inputs.
use omnistash.Base.{String, suc, ◌≡◌, ◌≢◌, ◌↔◌, ℕ, refl, some, [], ◌∷◌, ◌++◌}
use omnistash.Errors.{ok, fail, oci, store, OciError, StoreError}
use omnistash.Regexp.{matches, derive, nullable}
use omnistash.Name.Components.{has_plain_components, validate_name-components}
use omnistash.Base.{true, string_eq, ◌⊎◌}
use omnistash.Name.{codes, validate_name}
use omnistash.Name.Grammar.{IsName, validate_name-IsName}
use omnistash.Rest.Status.{err_to_status_code, switch}
use omnistash.Rest.Replies.{IsUnnamed, IsReplyOf, err_to_status_code_reply}
use omnistash.Rest.Paths.{
  split_namespaced_path, has_prefix, last_index, best_index, oci_path_separators,
}
use omnistash.Rest.Splits.{SomeAt, NoneAt}
use omnistash.Rest.Rejoins.{split_namespaced_path_iff}

err_to_status_code_reply_example :
    (IsUnnamed (oci OciError.name_unknown ∷ [])
      × (err_to_status_code (oci OciError.name_unknown ∷ []) ≡ (500, "INTERNAL_ERROR")))
    ⊎ IsReplyOf
        (oci OciError.name_unknown ∷ [])
        (err_to_status_code (oci OciError.name_unknown ∷ []))
err_to_status_code_reply_example = err_to_status_code_reply (oci OciError.name_unknown ∷ [])

not_found : err_to_status_code (oci OciError.name_unknown ∷ []) ≡ (404, "NAME_UNKNOWN")
unfolding err_to_status_code switch
not_found = refl

conflict : err_to_status_code (store StoreError.blob_committed ∷ []) ≡ (500, "INTERNAL_ERROR")
unfolding err_to_status_code switch
conflict = refl

validate_name-IsName_example :
    ((validate_name "a/b-c" ≡ ok tt) ↔ IsName (codes "a/b-c"))
    × ((validate_name "a/b-c" ≡ fail (oci OciError.name_invalid)) ↔ (¬ IsName (codes "a/b-c")))
validate_name-IsName_example = validate_name-IsName "a/b-c"

doubled : validate_name "a__b" ≡ ok tt
unfolding validate_name matches derive nullable string_eq
doubled = refl

accepted : validate_name "a/b-c" ≡ ok tt
unfolding validate_name matches derive nullable string_eq
accepted = refl

validate_name-components_example : has_plain_components true (codes "a/b-c") ≡ true
validate_name-components_example = validate_name-components "a/b-c" accepted

split : split_namespaced_path "/v2/a/blobs/b/tags/c" ≡ some ("a/blobs/b", "/tags/c")
unfolding split_namespaced_path has_prefix last_index best_index
split = refl

split_namespaced_path_iff_example :
    (split_namespaced_path "/v2/a/blobs/b/tags/c" ≡ some ("a/blobs/b", "/tags/c")) ↔ (
      (codes "/v2/" ++ (codes "a/blobs/b" ++ codes "/tags/c") ≡ codes "/v2/a/blobs/b/tags/c")
      × (◌≢◌ {A = String} "a/blobs/b" "")
      × SomeAt (codes "/tags/c") oci_path_separators
      × ((j : ℕ) → NoneAt (codes "/tags/c") oci_path_separators (suc j)))
split_namespaced_path_iff_example =
    split_namespaced_path_iff "/v2/a/blobs/b/tags/c" "a/blobs/b" "/tags/c"
