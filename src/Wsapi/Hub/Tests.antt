-- ===== src/Wsapi/Hub/Tests.antt =====
-- A hub with two waiters, the first of whom is gone, and codes drawn from a few bytes.
use noitu.Prelude.{
  ℕ, ◌≡◌, refl, true, false, List, [], ◌∷◌, none, some, codes, length, take, ltb, ◌==◌,
  if◌then◌else◌, ◌⊎◌,
}
use noitu.Wsapi.Hub.{
  Hub, HubView, HubCall, new_hub, calls, quick_match, queued, room_code_len, call_create,
  call_quick_match, call_drain, call_evict,
}
use noitu.Wsapi.Hub.Codes.{random_code, letters_all, random_code-letters_all}
use noitu.Wsapi.Hub.Queue.{IsPaired, all_gone, quick_match_fair}
use noitu.Wsapi.Hub.Calls.{IsHub, IsShut, calls-IsHub, calls-IsShut}

abbrev view : HubView
view = record { draws = codes "ABCDEF" ∷ []; gone = λ s. s == 1; takes = λ code. true }

abbrev two_wait : Hub
two_wait = record {
  max_rooms = 10;
  rooms = [];
  sessions = [];
  waiting = 1 ∷ 2 ∷ [];
  draining = false;
  log = [];
}

three_is_out : queued 3 two_wait.waiting ≡ false
unfolding queued
three_is_out = refl

quick_match_fair_example :
    IsPaired view.gone 3 two_wait.waiting (quick_match view 3 two_wait).0.waiting
    ⊎ ((all_gone view.gone two_wait.waiting ≡ true)
        × ((quick_match view 3 two_wait).0.waiting ≡ 3 ∷ []))
quick_match_fair_example = quick_match_fair view 3 two_wait refl three_is_out

abbrev busy : List (HubView × HubCall)
busy =
    (view, call_create 2)
    ∷ (view, call_quick_match 3)
    ∷ (view, call_quick_match 4)
    ∷ (view, call_evict (codes "ABCDEF"))
    ∷ (view, call_drain)
    ∷ []

calls-IsHub_example : IsHub (calls busy (new_hub 1))
calls-IsHub_example = calls-IsHub busy 1

abbrev closing : Hub
closing = record {
  max_rooms = 10;
  rooms = codes "ABCDEF" ∷ [];
  sessions = [];
  waiting = [];
  draining = true;
  log = [];
}

calls-IsShut_example : IsShut closing (calls busy closing)
calls-IsShut_example = calls-IsShut busy closing refl

-- Two bytes of the first buffer are above the limit.
abbrev buffers : List (List ℕ)
buffers = (0 ∷ 31 ∷ 250 ∷ 255 ∷ 7 ∷ 30 ∷ []) ∷ (62 ∷ 100 ∷ 200 ∷ 1 ∷ 2 ∷ 3 ∷ []) ∷ []

random_code-letters_all_example : random_code buffers ≡ (
    if ltb (length (letters_all buffers)) room_code_len
    then none
    else some (take room_code_len (letters_all buffers)))
random_code-letters_all_example = random_code-letters_all buffers
