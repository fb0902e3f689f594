-- ===== src/Proxy/Pages/Table.antt =====
-- The invariant of a page table, and that adding and removing pages keeps it.
use ios_webkit_debug_proxy_r.Base.{
  ℕ, ◌+◌, ◌≤◌, ◌<◌, ◌^◌, ◌%◌, String, ◌≡◌, refl, sym, subst, ◌∙◌, inl, inr, Bool, true, Option,
  none, some, List, [], ◌∷◌, arith, ◌==◌, nat_eq, string_eq, str_eq_iff, find, length, Option-cases,
  Bool-cases,
}
use ios_webkit_debug_proxy_r.Base.Dict.{HashMap, IsUniq, values}
use ios_webkit_debug_proxy_r.Base.Dict
use ios_webkit_debug_proxy_r.Base.Dict.Laws.{
  get-insert, get-modify, get-remove_all, IsUniq-insert, IsUniq-modify, IsUniq-remove_all,
  find-values-none,
}
use ios_webkit_debug_proxy_r.Rpc.{RpcPage}
use ios_webkit_debug_proxy_r.Proxy.State.{PageInfo}
use ios_webkit_debug_proxy_r.Proxy.Pages.{
  PageTable, is_page, refresh, new_page, add_page, add_pages, keys_where, remove_where, is_stale,
  apply_listing,
}

-- The keys are the page numbers, given out from 1 up, and no page of an app stands twice.
pub record IsTable (t : PageTable) : Type 0 where
  pub uniq : IsUniq t.pages
  pub numbered :
      (k : ℕ) (p : PageInfo)
      → Dict.get t.pages k ≡ some p
      → (p.page_num ≡ k) × (1 ≤ k) × (k ≤ t.max_page_num)
  pub distinct :
      (k j : ℕ) (p q : PageInfo)
      → Dict.get t.pages k ≡ some p
      → Dict.get t.pages j ≡ some q
      → p.app_id ≡ q.app_id
      → p.page_id ≡ q.page_id
      → k ≡ j

-- The same page of the same app under the same number.
pub record SamePage (p q : PageInfo) : Type 0 where
  pub page_num : q.page_num ≡ p.page_num
  pub app_id : q.app_id ≡ p.app_id
  pub page_id : q.page_id ≡ p.page_id

-- The second table has pages of the first only.
abbrev pub Shrinks : HashMap ℕ PageInfo → HashMap ℕ PageInfo → Type 0
Shrinks m m' =
    (j : ℕ) (q : PageInfo)
    → Dict.get m' j ≡ some q
    → (p : PageInfo) × (Dict.get m j ≡ some p) × SamePage p q

pub Shrinks-IsTable :
    {t : PageTable} (m' : HashMap ℕ PageInfo)
    → IsTable t
    → IsUniq m'
    → Shrinks t.pages m'
    → IsTable (record t { pages = m' })
Shrinks-IsTable {t} m' v uniq shrinks = record {
  uniq = uniq;
  numbered = λ k q h.
      let (p, found, same) = shrinks k q h in
      let (num, pos, bound) = v.numbered k p found in (same.page_num ∙ num, pos, bound);
  distinct = λ k j p q h h' app page.
      let (p0, found, same) = shrinks k p h in
      let (q0, found', same') = shrinks j q h' in
      v.distinct k j p0 q0 found found' (sym same.app_id ∙ app ∙ same'.app_id)
        (sym same.page_id ∙ page ∙ same'.page_id);
}

-- A write to a page that keeps its identity.
pub Shrinks-modify :
    (m : HashMap ℕ PageInfo) (n : ℕ) (f : PageInfo → PageInfo)
    → ((p : PageInfo) → SamePage p (f p))
    → Shrinks m (Dict.modify m n f)
Shrinks-modify m n f keeps j q h = split (Dict.get m j) refl
  where
    split :
        (o : Option PageInfo)
        → Dict.get m j ≡ o
        → (p : PageInfo) × (Dict.get m j ≡ some p) × SamePage p q
    split none e = absurd (ground (arith, get-modify m n j f))
    split (some p) e = elim (Bool-cases (n == j)) [
      | inl hit ↦
          let written : f p ≡ q = ground (arith, get-modify m n j f) in
          (p, e, subst (SamePage p) written (keeps p))
      | inr miss ↦
          let kept : p ≡ q = ground (arith, get-modify m n j f) in
          (
            p,
            e,
            subst (SamePage p) kept (record { page_num = refl; app_id = refl; page_id = refl }),
          )
    ]

pub Shrinks-remove_all : (m : HashMap ℕ PageInfo) (ks : List ℕ) → Shrinks m (Dict.remove_all m ks)
Shrinks-remove_all m ks j q h = (
  q,
  ground (arith, get-remove_all m ks j),
  record { page_num = refl; app_id = refl; page_id = refl },
)

pub remove_where-IsTable :
    {t : PageTable} (test : PageInfo → Bool)
    → IsTable t
    → IsTable (record t { pages = remove_where test t.pages })
unfolding remove_where
remove_where-IsTable {t} test v =
    Shrinks-IsTable _ v (IsUniq-remove_all t.pages (keys_where test t.pages) v.uniq)
      (Shrinks-remove_all t.pages (keys_where test t.pages))

pub is_page_iff :
    (app_id : String) (page_id : ℕ) (p : PageInfo)
    → is_page app_id page_id p ≡ true
    → (p.app_id ≡ app_id) × (p.page_id ≡ page_id)
is_page_iff app_id page_id p h = ground (arith, str_eq_iff p.app_id app_id)

pub is_page_of :
    (app_id : String) (page_id : ℕ) (p : PageInfo)
    → p.app_id ≡ app_id
    → p.page_id ≡ page_id
    → is_page app_id page_id p ≡ true
is_page_of app_id page_id p h k = ground (arith, str_eq_iff p.app_id app_id)

pub refresh-SamePage : (page : RpcPage) (p : PageInfo) → SamePage p (refresh page p)
refresh-SamePage page p = record { page_num = refl; app_id = refl; page_id = refl }

module _ (app_id : String) (page : RpcPage) (t : PageTable) (v : IsTable t) where
  fresh_page :
      find (is_page app_id page.page_id) (values t.pages) ≡ none
      → IsTable (record {
        pages =
            Dict.insert t.pages (t.max_page_num + 1) (new_page (t.max_page_num + 1) app_id page);
        max_page_num = t.max_page_num + 1;
      })
  fresh_page absent = record {
    uniq = IsUniq-insert t.pages _ _ v.uniq;
    numbered = λ k p h. ground (
      arith,
      get-insert t.pages (t.max_page_num + 1) k (new_page (t.max_page_num + 1) app_id page),
      v.numbered k p,
    );
    distinct = λ k j p q h h' app id. ground (
      arith,
      get-insert t.pages (t.max_page_num + 1) k (new_page (t.max_page_num + 1) app_id page),
      get-insert t.pages (t.max_page_num + 1) j (new_page (t.max_page_num + 1) app_id page),
      v.distinct k j p q,
      find-values-none (is_page app_id page.page_id) t.pages k p absent,
      find-values-none (is_page app_id page.page_id) t.pages j q absent,
      is_page_of app_id page.page_id p,
      is_page_of app_id page.page_id q,
    );
  }

  pub add_page-IsTable : t.max_page_num + 1 < 2 ^ 32 → IsTable (add_page app_id t page)
  unfolding add_page
  add_page-IsTable small =
      elim (Option-cases (find (is_page app_id page.page_id) (values t.pages))) [
        | inl absent ↦
            let whole : (t.max_page_num + 1) % 2 ^ 32 ≡ t.max_page_num + 1 = omega arith in
            rw (absent, add_page) (rw whole (fresh_page absent))
        | inr (p, found) ↦
            rw (found, add_page)
              (Shrinks-IsTable _ v (IsUniq-modify t.pages p.page_num (refresh page) v.uniq)
                (Shrinks-modify t.pages p.page_num (refresh page) (refresh-SamePage page)))
      ]

  -- A page takes at most one number.
  pub max_page_num-add_page :
      t.max_page_num + 1 < 2 ^ 32 → (add_page app_id t page).max_page_num ≤ t.max_page_num + 1
  unfolding add_page
  max_page_num-add_page small = ground arith

module _ (app_id : String) where
  pub add_pages-IsTable :
      (t : PageTable) (pages : List RpcPage)
      → IsTable t
      → t.max_page_num + length pages < 2 ^ 32
      → IsTable (add_pages app_id t pages)
  unfolding add_pages
  add_pages-IsTable t [] v small = v
  add_pages-IsTable t (page ∷ pages) v small =
      add_pages-IsTable (add_page app_id t page) pages
        (add_page-IsTable app_id page t v (omega arith))
        (omega (arith, max_page_num-add_page app_id page t v (omega arith)))

  -- A listing keeps the invariant of the page table, as long as the numbers do not run out: the
  -- keys are the page numbers, given out from 1 up, and no page of an app stands twice.
  pub apply_listing-IsTable :
      (t : PageTable) (pages : List RpcPage)
      → IsTable t
      → t.max_page_num + length pages < 2 ^ 32
      → IsTable (apply_listing app_id pages t)
  unfolding apply_listing
  apply_listing-IsTable t pages v small =
      remove_where-IsTable (is_stale app_id pages) (add_pages-IsTable t pages v small)

-- What is left after a removal was there before.
pub get_of_remove_where :
    (test : PageInfo → Bool) (m : HashMap ℕ PageInfo) (k : ℕ) (q : PageInfo)
    → Dict.get (remove_where test m) k ≡ some q
    → Dict.get m k ≡ some q
unfolding remove_where
get_of_remove_where test m k q h = ground (arith, get-remove_all m (keys_where test m) k)
