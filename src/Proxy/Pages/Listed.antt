-- ===== src/Proxy/Pages/Listed.antt =====
-- What a whole listing does to the page table of a device.
use ios_webkit_debug_proxy_r.Base.{
  ℕ, ◌+◌, ◌≤◌, ◌<◌, ◌^◌, String, ◌≡◌, ◌≢◌, refl, sym, ap, subst, ◌∙◌, ◌⊎◌, inl, inr, Bool, true,
  false, some, List, [], ◌∷◌, ◌++◌, arith, ◌==◌, nat_eq, string_eq, str_eq_iff, any, length,
  length-append,
}
use ios_webkit_debug_proxy_r.Base.Dict
use ios_webkit_debug_proxy_r.Rpc.{RpcPage}
use ios_webkit_debug_proxy_r.Proxy.State.{PageInfo}
use ios_webkit_debug_proxy_r.Proxy.Pages.{PageTable, add_page, add_pages, is_stale, apply_listing}
use ios_webkit_debug_proxy_r.Proxy.Pages.Table.{
  IsTable, add_page-IsTable, add_pages-IsTable, max_page_num-add_page, get_of_remove_where,
}
use ios_webkit_debug_proxy_r.Proxy.Pages.Listing.{
  Shows, Keeps, Keeps-self, Keeps-trans, keep, get-remove_where, add_page-Kept, add_page-Shown,
  add_page-agrees,
}

-- Some page of the listing has this number.
abbrev pub lists : List RpcPage → ℕ → Bool
lists pages page_id = any (λ rp. rp.page_id == page_id) pages

lists-append : (pre post : List RpcPage) (rp : RpcPage) → lists (pre ++ rp ∷ post) rp.page_id ≡ true
lists-append [] post rp = ground arith
lists-append (page ∷ pre) post rp = ground (arith, lists-append pre post rp)

module _ (app_id : String) where
  -- What the loop over the pages leaves of an entry.
  add_pages-Kept :
      (pages : List RpcPage) (t : PageTable) (k : ℕ) (p : PageInfo)
      → IsTable t
      → t.max_page_num + length pages < 2 ^ 32
      → Dict.get t.pages k ≡ some p
      → (q : PageInfo) × (Dict.get (add_pages app_id t pages).pages k ≡ some q)
        × Keeps app_id p q
        × (lists pages p.page_id ≡ false → q ≡ p)
  unfolding add_pages
  add_pages-Kept [] t k p v small got = (p, got, Keeps-self app_id p, λ _. refl)
  add_pages-Kept (page ∷ pages) t k p v small got =
      let room : t.max_page_num + 1 < 2 ^ 32 = omega arith in
      let (q, got', kept, same) = add_page-Kept app_id page t v room k p got in
      let (r, got'', kept', same') =
        add_pages-Kept pages (add_page app_id t page) k q (add_page-IsTable app_id page t v room)
          (omega (arith, max_page_num-add_page app_id page t v room)) got' in
      (
        r,
        got'',
        Keeps-trans app_id p q r kept kept',
        λ unlisted.
            let here : (page.page_id == p.page_id) ≡ false = ground arith in
            same' (ap (lists pages) (ap (λ (x : PageInfo). x.page_id) (same here)) ∙ ground arith)
            ∙ same here,
      )

  add_pages-append :
      (pre post : List RpcPage) (t : PageTable)
      → add_pages app_id t (pre ++ post) ≡ add_pages app_id (add_pages app_id t pre) post
  unfolding add_pages
  add_pages-append [] post t = refl
  add_pages-append (page ∷ pre) post t = add_pages-append pre post (add_page app_id t page)

  pub max_page_num-add_pages :
      (pages : List RpcPage) (t : PageTable)
      → IsTable t
      → t.max_page_num + length pages < 2 ^ 32
      → (add_pages app_id t pages).max_page_num ≤ t.max_page_num + length pages
  unfolding add_pages
  max_page_num-add_pages [] t v small = omega arith
  max_page_num-add_pages (page ∷ pages) t v small =
      let room : t.max_page_num + 1 < 2 ^ 32 = omega arith in
      let step = max_page_num-add_page app_id page t v room in
      omega (
        arith,
        step,
        max_page_num-add_pages pages (add_page app_id t page)
            (add_page-IsTable app_id page t v room) (omega (arith, step)),
      )

  -- Where the two client fields of each page agree, they do after the loop.
  abbrev pub Agrees : PageTable → Type 0
  Agrees t = (k : ℕ) (q : PageInfo) → Dict.get t.pages k ≡ some q → q.sender_id ≡ q.ws_client_id

  add_pages-Agrees :
      (pages : List RpcPage) (t : PageTable)
      → IsTable t
      → t.max_page_num + length pages < 2 ^ 32
      → Agrees t
      → Agrees (add_pages app_id t pages)
  unfolding add_pages
  add_pages-Agrees [] t v small agrees = agrees
  add_pages-Agrees (page ∷ pages) t v small agrees =
      let room : t.max_page_num + 1 < 2 ^ 32 = omega arith in
      add_pages-Agrees pages (add_page app_id t page) (add_page-IsTable app_id page t v room)
        (omega (arith, max_page_num-add_page app_id page t v room))
        (add_page-agrees app_id page t v room agrees)

  Shows-eq : (rp : RpcPage) (p q : PageInfo) → q ≡ p → Shows app_id rp p → Shows app_id rp q
  Shows-eq rp p q e s = subst (Shows app_id rp) (sym e) s

  -- A page that is last of its number in the listing is shown.
  add_pages-Shown :
      (pre post : List RpcPage) (rp : RpcPage) (t : PageTable)
      → IsTable t
      → t.max_page_num + length (pre ++ rp ∷ post) < 2 ^ 32
      → lists post rp.page_id ≡ false
      → (k : ℕ) × (p : PageInfo) × (Dict.get (add_pages app_id t (pre ++ rp ∷ post)).pages k
          ≡ some p)
        × Shows app_id rp p
  unfolding add_pages
  add_pages-Shown pre post rp t v small last =
      let size = length-append pre (rp ∷ post) in
      let t1 : PageTable = add_pages app_id t pre in
      let v1 : IsTable t1 = add_pages-IsTable app_id t pre v (omega (arith, size)) in
      let grown = max_page_num-add_pages pre t v (omega (arith, size)) in
      let room : t1.max_page_num + 1 < 2 ^ 32 = omega (arith, size, grown) in
      let (k, p, got, shows) = add_page-Shown app_id rp t1 v1 room in
      let v2 : IsTable (add_page app_id t1 rp) = add_page-IsTable app_id rp t1 v1 room in
      let (q, got', _, same) =
        add_pages-Kept post (add_page app_id t1 rp) k p v2
          (omega (arith, size, grown, max_page_num-add_page app_id rp t1 v1 room)) got in
      (
        k,
        q,
        ap (λ (t' : PageTable). Dict.get t'.pages k) (add_pages-append pre (rp ∷ post) t) ∙ got',
        Shows-eq rp p q (same (ap (lists post) shows.page_id ∙ last)) shows,
      )

  module _ (t : PageTable) (pages : List RpcPage) (v : IsTable t)
      (small : t.max_page_num + length pages < 2 ^ 32) where
    get-apply_listing :
        (k : ℕ)
        → Dict.get (apply_listing app_id pages t).pages k
          ≡ keep (is_stale app_id pages) (Dict.get (add_pages app_id t pages).pages k)
    unfolding apply_listing
    get-apply_listing k =
        get-remove_where (is_stale app_id pages) (add_pages app_id t pages).pages k
          (add_pages-IsTable app_id t pages v small).uniq

    pub max_page_num-apply_listing :
        (apply_listing app_id pages t).max_page_num ≤ t.max_page_num + length pages
    unfolding apply_listing
    max_page_num-apply_listing = max_page_num-add_pages pages t v small

    pub apply_listing-Agrees : Agrees t → Agrees (apply_listing app_id pages t)
    unfolding apply_listing
    apply_listing-Agrees agrees k q got =
        add_pages-Agrees pages t v small agrees k q
          (get_of_remove_where (is_stale app_id pages) (add_pages app_id t pages).pages k q got)

    is_stale-Keeps :
        (p q : PageInfo)
        → Keeps app_id p q
        → (p.app_id ≢ app_id) ⊎ (lists pages p.page_id ≡ true)
        → is_stale app_id pages q ≡ false
    is_stale-Keeps p q kept (inl other) =
        ground (arith, str_eq_iff q.app_id app_id, kept.app, other)
    is_stale-Keeps p q kept (inr listed) = ground (arith, ap (lists pages) kept.page_id ∙ listed)

    -- Where the table is well formed and its numbers do not run out, a page of another app stays
    -- as it is under a listing, and a page of the app that is listed again keeps its number, its
    -- type and its debugging client.
    pub apply_listing-Keeps :
        (k : ℕ) (p : PageInfo)
        → Dict.get t.pages k ≡ some p
        → (p.app_id ≢ app_id) ⊎ (lists pages p.page_id ≡ true)
        → (q : PageInfo) × (Dict.get (apply_listing app_id pages t).pages k ≡ some q)
          × Keeps app_id p q
    apply_listing-Keeps k p got stays =
        let (q, got', kept, _) = add_pages-Kept pages t k p v small got in
        let alive : is_stale app_id pages q ≡ false = is_stale-Keeps p q kept stays in
        (q, get-apply_listing k ∙ ap (keep (is_stale app_id pages)) got' ∙ rw alive, kept)

    -- Where the table is well formed and its numbers do not run out, no page of the app is left
    -- that the listing lacks.
    pub apply_listing-lists :
        (k : ℕ) (q : PageInfo)
        → Dict.get (apply_listing app_id pages t).pages k ≡ some q
        → q.app_id ≡ app_id
        → lists pages q.page_id ≡ true
    apply_listing-lists k q got app =
        ground (arith, get-apply_listing k, str_eq_iff q.app_id app_id)

  -- Each page of the listing is in the table, as its last mention in the listing shows it, where
  -- the table is well formed and its numbers do not run out.
  pub apply_listing-Shows :
      (t : PageTable) (pre post : List RpcPage) (rp : RpcPage)
      → IsTable t
      → t.max_page_num + length (pre ++ rp ∷ post) < 2 ^ 32
      → lists post rp.page_id ≡ false
      → (k : ℕ) × (p : PageInfo) × (Dict.get (apply_listing app_id (pre ++ rp ∷ post) t).pages k
          ≡ some p)
        × Shows app_id rp p
  apply_listing-Shows t pre post rp v small last =
      let (k, p, got, shows) = add_pages-Shown pre post rp t v small last in
      let pages : List RpcPage = pre ++ rp ∷ post in
      let listed : lists pages p.page_id ≡ true =
        ap (lists pages) shows.page_id ∙ lists-append pre post rp in
      let alive : is_stale app_id pages p ≡ false = ground (arith, listed) in
      (
        k,
        p,
        get-apply_listing t pages v small k ∙ ap (keep (is_stale app_id pages)) got ∙ rw alive,
        shows,
      )
