-- ===== src/Header/Marks.antt =====
-- The extensions of an empty and of a failed block are told apart, also in their compact form.
use avail_core.Base.{ℕ, ◌≡◌, refl, List, true, false, ok}
use avail_core.DataLookup.{is_error, is_empty, new_empty, new_error}
use avail_core.DataLookup.Compact.{from_data_lookup, try_from_compact}
use avail_core.Header.{
  HeaderVersion, v3, data_root, app_lookup, get_empty_header, get_faulty_header,
}

-- The extensions of an empty and of a failed block keep the data root. The lookups of both are empty,
-- that of the failed block alone is an error, and both come back from their compact form.
pub headers_marked :
    (root : List ℕ) (v : HeaderVersion)
    → (data_root (get_empty_header root v) ≡ root)
      × (data_root (get_faulty_header root v) ≡ root)
      × (is_empty (app_lookup (get_empty_header root v)) ≡ true)
      × (is_empty (app_lookup (get_faulty_header root v)) ≡ true)
      × (is_error (app_lookup (get_empty_header root v)) ≡ false)
      × (is_error (app_lookup (get_faulty_header root v)) ≡ true)
      × (try_from_compact (from_data_lookup (app_lookup (get_empty_header root v)))
          ≡ ok (app_lookup (get_empty_header root v)))
      × (try_from_compact (from_data_lookup (app_lookup (get_faulty_header root v)))
          ≡ ok (app_lookup (get_faulty_header root v)))
unfolding data_root app_lookup get_empty_header get_faulty_header is_error is_empty new_empty
    new_error from_data_lookup try_from_compact
headers_marked root v3 = (refl, refl, refl, refl, refl, refl, refl, refl)
