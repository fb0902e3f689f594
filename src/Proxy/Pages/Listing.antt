-- ===== src/Proxy/Pages/Listing.antt =====
-- What one page of a listing does to the page table of a device.
use ios_webkit_debug_proxy_r.Base.{
  ℕ, ◌+◌, ◌≤◌, ◌<◌, ◌^◌, ◌%◌, String, ◌≡◌, ◌≢◌, refl, sym, ap, ◌∙◌, inl, inr, Bool, false, Option,
  none, some, [], ◌∷◌, arith, ◌==◌, nat_eq, string_eq, find, Option-cases, Bool-cases,
  if◌then◌else◌,
}
use ios_webkit_debug_proxy_r.Base.Dict.{HashMap, IsUniq, values}
use ios_webkit_debug_proxy_r.Base.Dict
use ios_webkit_debug_proxy_r.Base.Dict.Laws.{get-insert, get-modify, get-remove_all, find-values}
use ios_webkit_debug_proxy_r.Rpc.{RpcPage}
use ios_webkit_debug_proxy_r.Proxy.State.{PageInfo}
use ios_webkit_debug_proxy_r.Proxy.Pages.{
  PageTable, is_page, refresh, new_page, add_page, keys_where, remove_where,
}
use ios_webkit_debug_proxy_r.Proxy.Pages.Table.{IsTable, is_page_iff}

-- What is left of an entry when the values that pass are removed.
abbrev pub keep : (PageInfo → Bool) → Option PageInfo → Option PageInfo
keep test none = none
keep test (some p) = if test p then none else some p

abbrev passes : (PageInfo → Bool) → Option PageInfo → Bool
passes test none = false
passes test (some p) = test p

contains-keys_where :
    (test : PageInfo → Bool) (m : HashMap ℕ PageInfo) (k : ℕ)
    → IsUniq m
    → Dict.contains (keys_where test m) k ≡ passes test (Dict.get m k)
unfolding keys_where Dict.contains Dict.get
contains-keys_where test [] k u = refl
contains-keys_where test ((n, p) ∷ m) k u = ground (arith, contains-keys_where test m k u.1)

pub get-remove_where :
    (test : PageInfo → Bool) (m : HashMap ℕ PageInfo) (k : ℕ)
    → IsUniq m
    → Dict.get (remove_where test m) k ≡ keep test (Dict.get m k)
unfolding remove_where
get-remove_where test m k u =
    ground (arith, get-remove_all m (keys_where test m) k, contains-keys_where test m k u)

-- The page shows what the listing says of it.
pub record Shows (app_id : String) (rp : RpcPage) (p : PageInfo) : Type 0 where
  pub app : p.app_id ≡ app_id
  pub page_id : p.page_id ≡ rp.page_id
  pub title : p.title ≡ rp.title
  pub url : p.url ≡ rp.url
  pub connection : p.connection_id ≡ rp.connection_id

-- A page that a listing of an app leaves as it is, but for what the listing shows: the number, the
-- app, the page and the debugging client stay, and everything if the app is another.
pub record Keeps (app_id : String) (p q : PageInfo) : Type 0 where
  pub page_num : q.page_num ≡ p.page_num
  pub app : q.app_id ≡ p.app_id
  pub page_id : q.page_id ≡ p.page_id
  pub page_type : q.page_type ≡ p.page_type
  pub sender : q.sender_id ≡ p.sender_id
  pub client : q.ws_client_id ≡ p.ws_client_id
  pub others : p.app_id ≢ app_id → q ≡ p

pub Keeps-self : (app_id : String) (p : PageInfo) → Keeps app_id p p
Keeps-self app_id p = record {
  page_num = refl;
  app = refl;
  page_id = refl;
  page_type = refl;
  sender = refl;
  client = refl;
  others = λ _. refl;
}

Keeps-refresh :
    (app_id : String) (page : RpcPage) (p : PageInfo)
    → p.app_id ≡ app_id
    → Keeps app_id p (refresh page p)
Keeps-refresh app_id page p h = record {
  page_num = refl;
  app = refl;
  page_id = refl;
  page_type = refl;
  sender = refl;
  client = refl;
  others = λ other. absurd (other h);
}

pub Keeps-trans :
    (app_id : String) (p q r : PageInfo) → Keeps app_id p q → Keeps app_id q r → Keeps app_id p r
Keeps-trans app_id p q r k l = record {
  page_num = l.page_num ∙ k.page_num;
  app = l.app ∙ k.app;
  page_id = l.page_id ∙ k.page_id;
  page_type = l.page_type ∙ k.page_type;
  sender = l.sender ∙ k.sender;
  client = l.client ∙ k.client;
  others = λ other. l.others (λ e. other (sym k.app ∙ e)) ∙ k.others other;
}

module _ (app_id : String) (page : RpcPage) (t : PageTable) (v : IsTable t)
    (small : t.max_page_num + 1 < 2 ^ 32) where
  fresh : ℕ
  fresh = (t.max_page_num + 1) % 2 ^ 32

  fresh_lem : fresh ≡ t.max_page_num + 1
  unfolding fresh
  fresh_lem = omega arith

  -- The two cases of a round: the page is new, or it has a number and is refreshed.
  data Round : Type 0 where
    adds :
        find (is_page app_id page.page_id) (values t.pages) ≡ none
        → (add_page app_id t page).pages ≡ Dict.insert t.pages fresh (new_page fresh app_id page)
        → Round
    refreshes :
        (n : ℕ) (e : PageInfo)
        → Dict.get t.pages n ≡ some e
        → e.app_id ≡ app_id
        → e.page_id ≡ page.page_id
        → (add_page app_id t page).pages ≡ Dict.modify t.pages n (refresh page)
        → Round

  add_page-Round : Round
  unfolding add_page fresh
  add_page-Round = elim (Option-cases (find (is_page app_id page.page_id) (values t.pages))) [
    | inl absent ↦ adds absent (rw (absent, add_page))
    | inr (e, found) ↦
        let (n, got, hit) = find-values (is_page app_id page.page_id) t.pages e v.uniq found in
        let (app, id) = is_page_iff app_id page.page_id e hit in
        let (num, _, _) = v.numbered n e got in
        refreshes n e got app id
          (rw (found, add_page) (ap (λ k. Dict.modify t.pages k (refresh page)) num))
  ]

  abbrev pub Kept : ℕ → PageInfo → PageTable → Type 0
  Kept k p t' =
      (q : PageInfo) × (Dict.get t'.pages k ≡ some q)
      × Keeps app_id p q
      × ((page.page_id == p.page_id) ≡ false → q ≡ p)

  pub add_page-Kept :
      (k : ℕ) (p : PageInfo) → Dict.get t.pages k ≡ some p → Kept k p (add_page app_id t page)
  add_page-Kept k p got = split add_page-Round
    where
      split : Round → Kept k p (add_page app_id t page)
      split (adds absent e) =
          let bound : k ≤ t.max_page_num = (v.numbered k p got).2 in
          (
            p,
            rw e (
                ground (
                  arith,
                  get-insert t.pages fresh k (new_page fresh app_id page),
                  fresh_lem,
                  bound,
                )),
            Keeps-self app_id p,
            λ _. refl,
          )
      split (refreshes n x found app id e) = elim (Bool-cases (n == k)) [
        | inl same ↦
            let here : p ≡ x = ground (arith, found) in
            (
              refresh page p,
              rw e (ground (arith, get-modify t.pages n k (refresh page))),
              Keeps-refresh app_id page p (ap (λ (y : PageInfo). y.app_id) here ∙ app),
              λ other. ground (arith, ap (λ (y : PageInfo). y.page_id) here),
            )
        | inr apart ↦ (
          p,
          rw e (ground (arith, get-modify t.pages n k (refresh page))),
          Keeps-self app_id p,
          λ _. refl,
        )
      ]

  abbrev pub Shown : RpcPage → PageTable → Type 0
  Shown rp t' = (k : ℕ) × (p : PageInfo) × (Dict.get t'.pages k ≡ some p) × Shows app_id rp p

  pub add_page-Shown : Shown page (add_page app_id t page)
  add_page-Shown = split add_page-Round
    where
      split : Round → Shown page (add_page app_id t page)
      split (adds absent e) = (
        fresh,
        new_page fresh app_id page,
        rw e (ground (arith, get-insert t.pages fresh fresh (new_page fresh app_id page))),
        record { app = refl; page_id = refl; title = refl; url = refl; connection = refl },
      )
      split (refreshes n x found app id e) = (
        n,
        refresh page x,
        rw e (ground (arith, get-modify t.pages n n (refresh page), found)),
        record { app = app; page_id = id; title = refl; url = refl; connection = refl },
      )

  pub add_page-agrees :
      ((k : ℕ) (q : PageInfo) → Dict.get t.pages k ≡ some q → q.sender_id ≡ q.ws_client_id)
      → (k : ℕ) (q : PageInfo) → Dict.get (add_page app_id t page).pages k ≡ some q
      → q.sender_id ≡ q.ws_client_id
  add_page-agrees agrees k q got = split add_page-Round (Dict.get t.pages k) refl
    where
      split : Round → (o : Option PageInfo) → Dict.get t.pages k ≡ o → q.sender_id ≡ q.ws_client_id
      split (adds absent e) none old = ground (
        arith,
        ap (λ m. Dict.get m k) e,
        got,
        get-insert t.pages fresh k (new_page fresh app_id page),
      )
      split (adds absent e) (some x) old = ground (
        arith,
        ap (λ m. Dict.get m k) e,
        got,
        get-insert t.pages fresh k (new_page fresh app_id page),
        agrees k x old,
      )
      split (refreshes n x found app id e) none old =
          absurd
            (ground (arith, ap (λ m. Dict.get m k) e, got, get-modify t.pages n k (refresh page)))
      split (refreshes n x found app id e) (some y) old = ground (
        arith,
        ap (λ m. Dict.get m k) e,
        got,
        get-modify t.pages n k (refresh page),
        agrees k y old,
      )
