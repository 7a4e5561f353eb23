-- ===== src/IoManager/Examples.antt =====
-- iomanager.cpp: each theorem on a manager with one registered read, and runs of the methods.
use cpp_library.Base.{◌≡◌, refl, true, false, none, some, [], ◌∷◌, inl, get_elem?}
use cpp_library.IoManager.{
  read, write, cb, Caller, job_of, ctl_add, control, FdContext, IoManager, empty_context,
  new_context, context_resize, new_manager, with_room, get_context, reset_context, take_job,
  trigger_event, armed, store, add_event, del_event, fire, fire_if, cancel_all, real_events,
  on_event, on_events,
}
use cpp_library.Fiber.{exec}
use cpp_library.IoManager.Laws.{Inv}
use cpp_library.IoManager.Runs.{adds, Reach, starts, steps, Reach-exact}
use cpp_library.IoManager.Reports.{on_event-hang_up}

abbrev three : FdContext
three = record (new_context 3) {
  events = 1;
  on_read = record empty_context { scheduler = some 1; callback = some 7 };
}

abbrev reading : IoManager
reading = store 3 three (control ctl_add 3 1 (record new_manager { pending_event_count = 1 }))

-- A call in the running fiber 2 of the scheduler 1
abbrev caller : Caller
caller = record { scheduler = some 1; running = 2; state = exec }

reading-Reach : Reach reading
unfolding new_manager context_resize with_room add_event job_of get_context armed
reading-Reach = steps starts (adds 3 read (some 7) caller 1 false true refl refl)

reading-Inv : Inv reading
reading-Inv = Reach-exact reading reading-Reach

idle-Inv : Inv new_manager
idle-Inv = Reach-exact new_manager starts

-- A descriptor behind the end makes room up to half as much again.
add_event_room :
    (m : IoManager) × (add_event 40 write none caller false new_manager ≡ some (true, m))
    × (get_elem? m.fd_contexts 59 ≡ some (new_context 59))
    × (get_elem? m.fd_contexts 60 ≡ none)
unfolding new_manager context_resize with_room add_event job_of get_context armed
add_event_room = (_, refl, refl, refl)

-- epoll_wait reports the read: the callback is scheduled.
on_events_read :
    (m : IoManager) × (on_events ((3, 1, false) ∷ []) reading ≡ some m)
    × (m.scheduled ≡ (1, cb 7) ∷ [])
    × (m.pending_event_count ≡ 0)
unfolding new_manager context_resize on_events on_event real_events fire_if fire trigger_event
    get_context take_job
on_events_read = (_, refl, refl, refl)

del_event_read :
    (m : IoManager) × (del_event 3 read false reading ≡ some (true, m))
    × (m.scheduled ≡ [])
    × (m.interest 3 ≡ none)
unfolding new_manager context_resize del_event reset_context get_context
del_event_read = (_, refl, refl, refl)

cancel_all_read :
    (m : IoManager) × (cancel_all 3 false reading ≡ some (true, m)) × (m.scheduled ≡ (1, cb 7) ∷ [])
unfolding new_manager context_resize cancel_all fire_if fire trigger_event get_context take_job
cancel_all_read = (_, refl, refl)

Reach-exact_example : Inv reading
Reach-exact_example = Reach-exact reading reading-Reach

on_event-hang_up_example : on_event 3 16 false reading ≡ none
unfolding new_manager context_resize
on_event-hang_up_example = on_event-hang_up 3 16 reading three reading-Inv refl (inl refl) refl
