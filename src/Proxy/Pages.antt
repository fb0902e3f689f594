-- ===== src/Proxy/Pages.antt =====
-- src/proxy.rs: the page table of a device. The parts of `handle_page_listing`, `remove_app_id` and
-- `sync_pages` that act on one runtime.
pub mod Table
pub mod Listing
pub mod Listed
pub mod Sync
use ios_webkit_debug_proxy_r.Base.{
  ℕ, ◌+◌, ◌%◌, ◌^◌, String, Bool, ◌&&◌, not, Option, none, some, List, [], ◌∷◌, map, ◌==◌, nat_eq,
  string_eq, leb, if◌then◌else◌, any, find,
}
use ios_webkit_debug_proxy_r.Base.Dict.{HashMap, values}
use ios_webkit_debug_proxy_r.Base.Dict
use ios_webkit_debug_proxy_r.HttpServer.{PageEntry, DevicePortState}
use ios_webkit_debug_proxy_r.Rpc.{RpcPage}
use ios_webkit_debug_proxy_r.Proxy.State.{PageInfo, DeviceRuntime}

-- `p.app_id == app_id && p.page_id == page_id`
abbrev pub is_page : String → ℕ → PageInfo → Bool
is_page app_id page_id p = p.app_id == app_id && p.page_id == page_id

abbrev pub refresh : RpcPage → PageInfo → PageInfo
refresh page p = record p { title = page.title; url = page.url; connection_id = page.connection_id }

abbrev pub new_page : ℕ → String → RpcPage → PageInfo
new_page page_num app_id page = record {
  page_num = page_num;
  page_type = page.page_type;
  app_id = app_id;
  page_id = page.page_id;
  connection_id = page.connection_id;
  title = page.title;
  url = page.url;
  sender_id = none;
  ws_client_id = none;
}

-- The page table and the greatest number given so far, a `u32` that wraps.
pub record PageTable : Type 0 where
  pub pages : HashMap ℕ PageInfo
  pub max_page_num : ℕ

-- One round of the loop that adds the pages of a listing.
unfoldable pub add_page : String → PageTable → RpcPage → PageTable
add_page app_id t page = elim (find (is_page app_id page.page_id) (values t.pages)) [
  | some existing ↦ record t { pages = Dict.modify t.pages existing.page_num (refresh page) }
  | none ↦
      let page_num : ℕ = (t.max_page_num + 1) % 2 ^ 32 in
      record {
        pages = Dict.insert t.pages page_num (new_page page_num app_id page);
        max_page_num = page_num;
      }
]

unfoldable pub add_pages : String → PageTable → List RpcPage → PageTable
add_pages app_id t [] = t
add_pages app_id t (page ∷ pages) = add_pages app_id (add_page app_id t page) pages

-- The keys of the values that pass, collected before they are removed.
unfoldable pub keys_where : (PageInfo → Bool) → HashMap ℕ PageInfo → List ℕ
keys_where test [] = []
keys_where test ((num, p) ∷ m) =
    let rest : List ℕ = keys_where test m in if test p then num ∷ rest else rest

unfoldable pub remove_where : (PageInfo → Bool) → HashMap ℕ PageInfo → HashMap ℕ PageInfo
remove_where test m = Dict.remove_all m (keys_where test m)

-- The app's page is not in the listing.
abbrev pub is_stale : String → List RpcPage → PageInfo → Bool
is_stale app_id pages p = p.app_id == app_id && not (any (λ rp. rp.page_id == p.page_id) pages)

unfoldable pub apply_listing : String → List RpcPage → PageTable → PageTable
apply_listing app_id pages t =
    let added : PageTable = add_pages app_id t pages in
    record added { pages = remove_where (is_stale app_id pages) added.pages }

unfoldable pub remove_app_pages : String → HashMap ℕ PageInfo → HashMap ℕ PageInfo
remove_app_pages app_id = remove_where (λ p. p.app_id == app_id)

abbrev pub to_entry : PageInfo → PageEntry
to_entry p = record {
  page_num = p.page_num;
  app_id = p.app_id;
  page_id = p.page_id;
  title = p.title;
  url = p.url;
  sender_id = p.sender_id;
}

-- `sort_by_key(|p| p.page_num)`, which is stable.
unfoldable pub insert_sorted : PageEntry → List PageEntry → List PageEntry
insert_sorted e [] = e ∷ []
insert_sorted e (f ∷ es) = if leb e.page_num f.page_num then e ∷ f ∷ es else f ∷ insert_sorted e es

unfoldable pub sort_by_key : List PageEntry → List PageEntry
sort_by_key [] = []
sort_by_key (e ∷ es) = insert_sorted e (sort_by_key es)

unfoldable pub entries : HashMap ℕ PageInfo → List PageEntry
entries pages = sort_by_key (map to_entry (values pages))

unfoldable pub sync_pages : DeviceRuntime → DeviceRuntime
sync_pages r = record r { shared_state = record shared_state { pages = entries r.pages } }
  where
    open r use {shared_state}
