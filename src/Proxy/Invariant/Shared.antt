-- ===== src/Proxy/Invariant/Shared.antt =====
-- What the servers see of a device's pages is what its page table has.
use mathlib.Core.Option
use ios_webkit_debug_proxy_r.Base.{
  ℕ, ◌≤◌, ◌<◌, ◌^◌, String, ◌≡◌, refl, sym, ap, subst, ◌∙◌, Option, none, some, List, [], ◌∷◌, map,
  find, any, ◌==◌, nat_eq, string_eq, arith, if◌then◌else◌, All,
}
use ios_webkit_debug_proxy_r.Base.Dict.{HashMap, values}
use ios_webkit_debug_proxy_r.Base.Dict
use ios_webkit_debug_proxy_r.Base.Dict.Laws.{find-values-eq-get}
use ios_webkit_debug_proxy_r.HttpServer.{PageEntry}
use ios_webkit_debug_proxy_r.HttpServer.Connection.{handle_ws_upgrade}
use ios_webkit_debug_proxy_r.Plist.{Plist}
use ios_webkit_debug_proxy_r.Proxy.State.{PageInfo, DeviceRuntime, ProxyBridge, PortRange, World}
use ios_webkit_debug_proxy_r.Proxy.Pages.{to_entry, insert_sorted, sort_by_key, entries}
use ios_webkit_debug_proxy_r.Proxy.Pages.Sync.{IsSorted, entries-IsSorted, forget}
use ios_webkit_debug_proxy_r.Proxy.Devices.{Outside, is_some}
use ios_webkit_debug_proxy_r.Proxy.Run.{Event, event_loop}
use ios_webkit_debug_proxy_r.Proxy.Invariant.{IsRuntime}
use ios_webkit_debug_proxy_r.Proxy.Invariant.Reachable.{total_cost, event_loop-IsWorld}

abbrev entry_at : ℕ → List PageEntry → Option PageEntry
entry_at k es = find (λ e. e.page_num == k) es

-- The page with the number k as a list shows it, the debugging client left out.
abbrev pub shown_as : ℕ → PageInfo → PageEntry
shown_as k q = record {
  page_num = k;
  app_id = q.app_id;
  page_id = q.page_id;
  title = q.title;
  url = q.url;
  sender_id = none;
}

-- The servers' list is in the order of the numbers; under each number it shows the page that the
-- table has, or none; and a client may connect to a number exactly if the table has it.
pub record Shares (r : DeviceRuntime) : Type 0 where
  pub sorted : IsSorted r.shared_state.pages
  pub shown :
      (k : ℕ)
      → Option.map forget (find (λ e. e.page_num == k) r.shared_state.pages)
        ≡ Option.map (shown_as k) (Dict.get r.pages k)
  pub upgrades : (k : ℕ) → handle_ws_upgrade r.shared_state k ≡ is_some (Dict.get r.pages k)

entry_at-insert_sorted :
    (k : ℕ) (e : PageEntry) (es : List PageEntry)
    → entry_at k (insert_sorted e es) ≡ (if e.page_num == k then some e else entry_at k es)
unfolding insert_sorted
entry_at-insert_sorted k e [] = refl
entry_at-insert_sorted k e (f ∷ es) = ground (arith, entry_at-insert_sorted k e es)

entry_at-sort_by_key : (k : ℕ) (es : List PageEntry) → entry_at k (sort_by_key es) ≡ entry_at k es
unfolding sort_by_key
entry_at-sort_by_key k [] = refl
entry_at-sort_by_key k (e ∷ es) =
    entry_at-insert_sorted k e (sort_by_key es)
    ∙ ap (λ o. if e.page_num == k then some e else o) (entry_at-sort_by_key k es)

entry_at-to_entry :
    (k : ℕ) (qs : List PageInfo)
    → entry_at k (map to_entry qs) ≡ Option.map to_entry (find (λ q. q.page_num == k) qs)
entry_at-to_entry k [] = refl
entry_at-to_entry k (q ∷ qs) = ground (arith, entry_at-to_entry k qs)

entry_at-forget :
    (k : ℕ) (es : List PageEntry) → Option.map forget (entry_at k es) ≡ entry_at k (map forget es)
entry_at-forget k [] = refl
entry_at-forget k (e ∷ es) = ground (arith, entry_at-forget k es)

any-entry_at :
    (k : ℕ) (es : List PageEntry) → any (λ e. e.page_num == k) es ≡ is_some (entry_at k es)
any-entry_at k [] = refl
any-entry_at k (e ∷ es) = ground (arith, any-entry_at k es)

All-forget :
    (n : ℕ) (es : List PageEntry)
    → All (λ f. n ≤ f.page_num) (map forget es)
    → All (λ f. n ≤ f.page_num) es
All-forget n [] all = tt
All-forget n (e ∷ es) all = (all.0, All-forget n es all.1)

IsSorted-forget : (es : List PageEntry) → IsSorted (map forget es) → IsSorted es
IsSorted-forget [] sorted = tt
IsSorted-forget (e ∷ es) sorted = (All-forget e.page_num es sorted.0, IsSorted-forget es sorted.1)

All-forgotten :
    (n : ℕ) (es : List PageEntry)
    → All (λ f. n ≤ f.page_num) es
    → All (λ f. n ≤ f.page_num) (map forget es)
All-forgotten n [] all = tt
All-forgotten n (e ∷ es) all = (all.0, All-forgotten n es all.1)

forget-IsSorted : (es : List PageEntry) → IsSorted es → IsSorted (map forget es)
forget-IsSorted [] sorted = tt
forget-IsSorted (e ∷ es) sorted =
    (All-forgotten e.page_num es sorted.0, forget-IsSorted es sorted.1)

-- An optional page under its number, without the debugging client.
map-shown_as :
    (k : ℕ) (o : Option PageInfo)
    → ((q : PageInfo) → o ≡ some q → q.page_num ≡ k)
    → Option.map forget (Option.map to_entry o) ≡ Option.map (shown_as k) o
map-shown_as k none numbered = refl
map-shown_as k (some q) numbered =
    ap (λ n. some (record (shown_as k q) { page_num = n })) (numbered q refl)

is_some-map : {A B : Type 0} (f : A → B) (o : Option A) → is_some (Option.map f o) ≡ is_some o
is_some-map f none = refl
is_some-map f (some a) = refl

module _ (n : ℕ) (r : DeviceRuntime) (v : IsRuntime n r) where
  entry_at-entries :
      (k : ℕ) → entry_at k (entries r.pages) ≡ Option.map to_entry (Dict.get r.pages k)
  unfolding entries
  entry_at-entries k =
      entry_at-sort_by_key k (map to_entry (values r.pages))
      ∙ entry_at-to_entry k (values r.pages)
      ∙ ap (Option.map to_entry) (
          find-values-eq-get (λ (q : PageInfo). q.page_num == k) k r.pages v.is_table.uniq
            λ j q got. let (num, _, _) = v.is_table.numbered j q got in ground (arith, num))

  shown_lem :
      (k : ℕ)
      → Option.map forget (entry_at k r.shared_state.pages)
        ≡ Option.map (shown_as k) (Dict.get r.pages k)
  shown_lem k =
      entry_at-forget k r.shared_state.pages
      ∙ ap (entry_at k) v.shared_pages
      ∙ sym (entry_at-forget k (entries r.pages))
      ∙ ap (Option.map forget) (entry_at-entries k)
      ∙ map-shown_as k (Dict.get r.pages k) (λ q got. (v.is_table.numbered k q got).0)

  IsRuntime-Shares : Shares r
  unfolding handle_ws_upgrade
  IsRuntime-Shares = record {
    sorted = IsSorted-forget r.shared_state.pages (
        subst IsSorted (sym v.shared_pages)
          (forget-IsSorted (entries r.pages) (entries-IsSorted r.pages)));
    shown = shown_lem;
    upgrades = λ k.
        any-entry_at k r.shared_state.pages
        ∙ sym (is_some-map forget (entry_at k r.shared_state.pages))
        ∙ ap is_some (shown_lem k)
        ∙ is_some-map (shown_as k) (Dict.get r.pages k);
  }

module _ (p : Plist) (b : ProxyBridge) (range : PortRange)
    (ranged : b.device_ports ≡ some range) where
  -- Where the bridge has a range of device ports and the listings of a run name fewer than 2 ^ 32
  -- pages in all, the servers of each device that is in the table after any events see its page
  -- table: the list is in the order of the page numbers, it shows under each number the app, the
  -- identifier, the title and the URL that the table has, or nothing where the table has none, and
  -- a client's upgrade for a number is accepted exactly if the table has it.
  pub event_loop-Shares :
      (o : Outside) (w : World) (events : List (Event p)) (id : String) (r : DeviceRuntime)
      → w.devices ≡ []
      → w.device_list ≡ []
      → total_cost p events < 2 ^ 32
      → Dict.get (event_loop p b o w events).devices id ≡ some r
      → Shares r
  event_loop-Shares o w events id r none_yet none_shown small known =
      IsRuntime-Shares (total_cost p events) r (
        (event_loop-IsWorld p b range ranged o w events none_yet none_shown small).runtime id r
          known)
