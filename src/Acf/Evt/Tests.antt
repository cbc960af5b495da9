-- ===== src/Acf/Evt/Tests.antt =====
-- A request with an evt field.
use go_rcp.Base.{◌%◌, ◌≡◌, ◌≢◌, ◌⊎◌, [], ◌∷◌, length, err, evt_missing_payload}
use go_rcp.Acf.{Message, no_message}
use go_rcp.Acf.Evt.{evt_disposition, evt_class_arithmetic}
use go_rcp.Acf.Evt.Table.{IsRow, evt_disposition-apply_evt_write_op}

-- A saturating addition, with an acknowledgement.
abbrev add_request : Message
add_request = record no_message { kind = 1; evt = 0xd; body = 1 ∷ [] }

evt_disposition-apply_evt_write_op_example :
    ((add_request.evt % 8 ≢ 0)
      × (length add_request.body ≡ 0)
      × (evt_disposition add_request evt_class_arithmetic ≡ err evt_missing_payload))
    ⊎ (((add_request.evt % 8 ≡ 0) ⊎ (length add_request.body ≢ 0))
        × IsRow (evt_disposition add_request evt_class_arithmetic) (add_request.evt % 8) 1 250 255)
evt_disposition-apply_evt_write_op_example =
    evt_disposition-apply_evt_write_op add_request 1 250 255
