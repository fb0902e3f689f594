-- ===== src/Proxy/Pages/Sync.antt =====
-- The list of pages that is shared with the servers: sorted, and without regard to the debugging
-- client unchanged when a client comes or goes.
use ios_webkit_debug_proxy_r.Base.{
  ℕ, ◌≤◌, ◌≡◌, refl, sym, ap, ◌∙◌, Bool, none, List, [], ◌∷◌, map, arith, All,
}
use ios_webkit_debug_proxy_r.Base.Dict.{HashMap, values}
use ios_webkit_debug_proxy_r.Base.Dict
use ios_webkit_debug_proxy_r.HttpServer.{PageEntry}
use ios_webkit_debug_proxy_r.Proxy.State.{PageInfo}
use ios_webkit_debug_proxy_r.Proxy.Pages.{to_entry, insert_sorted, sort_by_key, entries}

abbrev pub IsSorted : List PageEntry → Type 0
IsSorted [] = Unit
IsSorted (e ∷ es) = All (λ f. e.page_num ≤ f.page_num) es × IsSorted es

All-insert_sorted :
    (n : ℕ) (e : PageEntry) (es : List PageEntry)
    → n ≤ e.page_num
    → All (λ f. n ≤ f.page_num) es
    → All (λ f. n ≤ f.page_num) (insert_sorted e es)
unfolding insert_sorted
All-insert_sorted n e [] h a = (h, tt)
All-insert_sorted n e (f ∷ es) h a = ground (arith, All-insert_sorted n e es h a.1)

All-le :
    (m n : ℕ) (es : List PageEntry)
    → m ≤ n
    → All (λ f. n ≤ f.page_num) es
    → All (λ f. m ≤ f.page_num) es
All-le m n [] h a = tt
All-le m n (f ∷ es) h a = (omega arith, All-le m n es h a.1)

insert_sorted-IsSorted :
    (e : PageEntry) (es : List PageEntry) → IsSorted es → IsSorted (insert_sorted e es)
unfolding insert_sorted
insert_sorted-IsSorted e [] s = (tt, tt)
insert_sorted-IsSorted e (f ∷ es) s = ground (
  arith,
  All-le e.page_num f.page_num es,
  All-insert_sorted f.page_num e es,
  insert_sorted-IsSorted e es s.1,
  s.0,
)

sort_by_key-IsSorted : (es : List PageEntry) → IsSorted (sort_by_key es)
unfolding sort_by_key
sort_by_key-IsSorted [] = tt
sort_by_key-IsSorted (e ∷ es) = insert_sorted-IsSorted e (sort_by_key es) (sort_by_key-IsSorted es)

pub entries-IsSorted : (pages : HashMap ℕ PageInfo) → IsSorted (entries pages)
unfolding entries
entries-IsSorted pages = sort_by_key-IsSorted _

-- An entry without its debugging client.
abbrev pub forget : PageEntry → PageEntry
forget e = record e { sender_id = none }

map-insert_sorted :
    (e : PageEntry) (es : List PageEntry)
    → map forget (insert_sorted e es) ≡ insert_sorted (forget e) (map forget es)
unfolding insert_sorted
map-insert_sorted e [] = refl
map-insert_sorted e (f ∷ es) = ground (arith, map-insert_sorted e es)

map-sort_by_key : (es : List PageEntry) → map forget (sort_by_key es) ≡ sort_by_key (map forget es)
unfolding sort_by_key
map-sort_by_key [] = refl
map-sort_by_key (e ∷ es) =
    map-insert_sorted e (sort_by_key es) ∙ ap (insert_sorted (forget e)) (map-sort_by_key es)

map-values-modify_first :
    (test : PageInfo → Bool) (f : PageInfo → PageInfo) (pages : HashMap ℕ PageInfo)
    → ((q : PageInfo) → forget (to_entry (f q)) ≡ forget (to_entry q))
    → map forget (map to_entry (values (Dict.modify_first pages test f)))
      ≡ map forget (map to_entry (values pages))
unfolding Dict.modify_first
map-values-modify_first test f [] same = refl
map-values-modify_first test f ((k, q) ∷ pages) same =
    ground (arith, same q, map-values-modify_first test f pages same)

pub entries-modify_first :
    (test : PageInfo → Bool) (f : PageInfo → PageInfo) (pages : HashMap ℕ PageInfo)
    → ((q : PageInfo) → forget (to_entry (f q)) ≡ forget (to_entry q))
    → map forget (entries (Dict.modify_first pages test f)) ≡ map forget (entries pages)
unfolding entries
entries-modify_first test f pages same =
    map-sort_by_key _
    ∙ ap sort_by_key (map-values-modify_first test f pages same)
    ∙ sym (map-sort_by_key _)
