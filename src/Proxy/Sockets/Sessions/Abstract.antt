-- ===== src/Proxy/Sockets/Sessions/Abstract.antt =====
-- The sessions in the abstract: which client debugs which page, and what a message does to that.
use mathlib.Core.Option
use ios_webkit_debug_proxy_r.Base.{
  ℕ, String, ◌≡◌, refl, sym, ap, subst, ◌∙◌, Bool, true, false, ◌&&◌, Option, none, some, [], ◌∷◌,
  ◌==◌, nat_eq, string_eq, str_eq_iff, is_empty, if◌then◌else◌, Bool-cases, inl, inr, arith,
  and_split,
}
use ios_webkit_debug_proxy_r.Base.Dict.{HashMap, values}
use ios_webkit_debug_proxy_r.Base.Dict
use ios_webkit_debug_proxy_r.Base.Dict.Laws.{get-modify}
use ios_webkit_debug_proxy_r.HttpServer.{WsToWiMessage}
use ios_webkit_debug_proxy_r.Proxy.State.{PageInfo, DeviceRuntime, World}
use ios_webkit_debug_proxy_r.Proxy.Sockets.{has_number, find_page}

-- For each device and number: `none` if there is no such page, and else the client that debugs it.
abbrev pub Sessions : Type 0
Sessions = String → ℕ → Option (Option String)

-- A page's client, of an optional page.
abbrev pub client_of : Option PageInfo → Option (Option String)
client_of page = Option.map (λ (q : PageInfo). q.ws_client_id) page

abbrev pub page_at : HashMap String DeviceRuntime → String → ℕ → Option PageInfo
page_at devices id n =
    Option.bind (Dict.get devices id) (λ (r : DeviceRuntime). find_page n r.pages)

abbrev pub sessions : World → Sessions
sessions w id n = client_of (page_at w.devices id n)

-- What a client's message does to the page that it is for: a close frees it, an opening gives it to
-- the client, data leave it.
abbrev pub after : WsToWiMessage → Option String → Option String
after msg holder =
    if msg.is_close then none else if is_empty msg.payload then some msg.ws_id else holder

-- A change of one page's client.
abbrev pub change : String → ℕ → (Option String → Option String) → Sessions → Sessions
change id n g s id' m = if id == id' && m == n then Option.map g (s id' m) else s id' m

-- From one table of devices to another, the sessions change by g at one page.
abbrev pub Acts :
    HashMap String DeviceRuntime
    → HashMap String DeviceRuntime
    → String
    → ℕ
    → (Option String → Option String)
    → Type 0
Acts devices devices' id n g =
    (id' : String) (m : ℕ)
    → client_of (page_at devices' id' m)
      ≡ change id n g (λ i k. client_of (page_at devices i k)) id' m

pub find_page-modify_first :
    (n m : ℕ) (f : PageInfo → PageInfo) (pages : HashMap ℕ PageInfo)
    → ((q : PageInfo) → (f q).page_num ≡ q.page_num)
    → find_page m (Dict.modify_first pages (has_number n) f)
      ≡ (if m == n then Option.map f (find_page m pages) else find_page m pages)
unfolding Dict.modify_first
find_page-modify_first n m f [] same = ground arith
find_page-modify_first n m f ((k, q) ∷ pages) same =
    ground (arith, same q, find_page-modify_first n m f pages same)

change_id : (t : Bool) (s : Option (Option String)) → s ≡ (if t then Option.map (λ c. c) s else s)
change_id true none = refl
change_id true (some c) = refl
change_id false s = refl

change_trans :
    (t : Bool) (x y z : Option (Option String)) (g h : Option String → Option String)
    → y ≡ (if t then Option.map g x else x)
    → z ≡ (if t then Option.map h y else y)
    → z ≡ (if t then Option.map (λ c. h (g c)) x else x)
change_trans true none y z g h first later = later ∙ ap (Option.map h) first
change_trans true (some c) y z g h first later = later ∙ ap (Option.map h) first
change_trans false x y z g h first later = later ∙ first

client_of-map :
    (t : Bool) (o : Option PageInfo) (f : PageInfo → PageInfo) (g : Option String → Option String)
    → ((q : PageInfo) → (f q).ws_client_id ≡ g q.ws_client_id)
    → client_of (if t then Option.map f o else o)
      ≡ (if t then Option.map g (client_of o) else client_of o)
client_of-map true none f g writes = refl
client_of-map true (some q) f g writes = ap some (writes q)
client_of-map false o f g writes = refl

-- Where the client is left as it is, nothing changes.
pub Acts-id :
    (devices : HashMap String DeviceRuntime) (id : String) (n : ℕ)
    → Acts devices devices id n (λ c. c)
Acts-id devices id n id' m = change_id (id == id' && m == n) (client_of (page_at devices id' m))

pub Acts-trans :
    (a b c : HashMap String DeviceRuntime) (id : String) (n : ℕ)
    (g h : Option String → Option String)
    → Acts a b id n g
    → Acts b c id n h
    → Acts a c id n (λ x. h (g x))
Acts-trans a b c id n g h first later id' m =
    change_trans (id == id' && m == n) (client_of (page_at a id' m)) (client_of (page_at b id' m))
      (client_of (page_at c id' m)) g h (first id' m) (later id' m)

-- A write to the page of a runtime.
pub Acts-update :
    (devices : HashMap String DeviceRuntime) (id : String) (n : ℕ) (r r' : DeviceRuntime)
    (f : PageInfo → PageInfo) (g : Option String → Option String)
    → Dict.get devices id ≡ some r
    → ((q : PageInfo) → (f q).page_num ≡ q.page_num)
    → ((q : PageInfo) → (f q).ws_client_id ≡ g q.ws_client_id)
    → r'.pages ≡ Dict.modify_first r.pages (has_number n) f
    → Acts devices (Dict.modify devices id (λ _. r')) id n g
unfolding Option.bind
Acts-update devices id n r r' f g known same writes pages id' m = elim (Bool-cases (id == id')) [
  | inl here ↦
      let known' : Dict.get devices id' ≡ some r =
        ap (Dict.get devices) (sym ((str_eq_iff id id').0 here)) ∙ known in
      let stored : Dict.get (Dict.modify devices id (λ _. r')) id' ≡ some r' =
        get-modify devices id id' (λ _. r') ∙ rw (here, known') refl in
      let found : find_page m r'.pages
          ≡ (if m == n then Option.map f (find_page m r.pages) else find_page m r.pages) =
        ap (find_page m) pages ∙ find_page-modify_first n m f r.pages same in
      rw (stored, known', here)
        (ap client_of found ∙ client_of-map (m == n) (find_page m r.pages) f g writes)
  | inr other ↦
      let unread : Dict.get (Dict.modify devices id (λ _. r')) id' ≡ Dict.get devices id' =
        get-modify devices id id' (λ _. r') ∙ rw other refl in
      rw (unread, other) refl
]

-- A write that leaves the pages as they are.
pub Acts-same :
    (devices : HashMap String DeviceRuntime) (id : String) (n : ℕ) (r r' : DeviceRuntime)
    → Dict.get devices id ≡ some r
    → r'.pages ≡ r.pages
    → Acts devices (Dict.modify devices id (λ _. r')) id n (λ c. c)
unfolding Option.bind
Acts-same devices id n r r' known same id' m = elim (Bool-cases (id == id')) [
  | inl here ↦
      let known' : Dict.get devices id' ≡ some r =
        ap (Dict.get devices) (sym ((str_eq_iff id id').0 here)) ∙ known in
      let stored : Dict.get (Dict.modify devices id (λ _. r')) id' ≡ some r' =
        get-modify devices id id' (λ _. r') ∙ rw (here, known') refl in
      rw (stored, known', here)
        (ap (λ ps. client_of (find_page m ps)) same
          ∙ change_id (m == n) (client_of (find_page m r.pages)))
  | inr other ↦
      let unread : Dict.get (Dict.modify devices id (λ _. r')) id' ≡ Dict.get devices id' =
        get-modify devices id id' (λ _. r') ∙ rw other refl in
      rw (unread, other) refl
]

-- A change that leaves the page's client as it is.
pub Acts-fixed :
    (devices : HashMap String DeviceRuntime) (id : String) (n : ℕ)
    (g : Option String → Option String)
    → Option.map g (client_of (page_at devices id n)) ≡ client_of (page_at devices id n)
    → Acts devices devices id n g
Acts-fixed devices id n g fixed id' m = elim (Bool-cases (id == id' && m == n)) [
  | inl here ↦
      let (device, page) = and_split (id == id') (m == n) here in
      let same : page_at devices id n ≡ page_at devices id' m =
        ap (λ i. page_at devices i n) ((str_eq_iff id id').0 device)
        ∙ ap (page_at devices id') (sym ((nat_eq.eq_iff m n).0 page)) in
      rw here (sym (subst (λ x. Option.map g (client_of x) ≡ client_of x) same fixed))
  | inr other ↦ rw other refl
]
