-- ===== src/Decoder/Machine/Tables/MessageToOptions.antt =====
-- decoder/machine.go: the switches of the states of MESSAGE, NOTIFY and OPTIONS.
use heplify.Common.{[], ◌∷◌}
use heplify.Decoder.Machine.Labels.{Switch, on, st}

abbrev pub case_31 : Switch
case_31 = (on 67 (st 2) ∷ on 69 (st 32) ∷ on 99 (st 2) ∷ [], st 1)

abbrev pub case_32 : Switch
case_32 = (on 67 (st 2) ∷ on 83 (st 33) ∷ on 99 (st 2) ∷ [], st 1)

abbrev pub case_33 : Switch
case_33 = (on 67 (st 2) ∷ on 83 (st 34) ∷ on 99 (st 2) ∷ [], st 1)

abbrev pub case_34 : Switch
case_34 = (on 65 (st 35) ∷ on 67 (st 2) ∷ on 99 (st 2) ∷ [], st 1)

abbrev pub case_35 : Switch
case_35 = (on 67 (st 2) ∷ on 71 (st 20) ∷ on 99 (st 2) ∷ [], st 1)

abbrev pub case_36 : Switch
case_36 = (on 67 (st 2) ∷ on 79 (st 37) ∷ on 99 (st 2) ∷ [], st 1)

abbrev pub case_37 : Switch
case_37 = (on 67 (st 2) ∷ on 84 (st 38) ∷ on 99 (st 2) ∷ [], st 1)

abbrev pub case_38 : Switch
case_38 = (on 67 (st 2) ∷ on 73 (st 39) ∷ on 99 (st 2) ∷ [], st 1)

abbrev pub case_39 : Switch
case_39 = (on 67 (st 2) ∷ on 70 (st 40) ∷ on 99 (st 2) ∷ [], st 1)

abbrev pub case_40 : Switch
case_40 = (on 67 (st 2) ∷ on 89 (st 17) ∷ on 99 (st 2) ∷ [], st 1)

abbrev pub case_41 : Switch
case_41 = (on 67 (st 2) ∷ on 80 (st 42) ∷ on 99 (st 2) ∷ [], st 1)

abbrev pub case_42 : Switch
case_42 = (on 67 (st 2) ∷ on 84 (st 43) ∷ on 99 (st 2) ∷ [], st 1)

abbrev pub case_43 : Switch
case_43 = (on 67 (st 2) ∷ on 73 (st 44) ∷ on 99 (st 2) ∷ [], st 1)

abbrev pub case_44 : Switch
case_44 = (on 67 (st 2) ∷ on 79 (st 45) ∷ on 99 (st 2) ∷ [], st 1)

abbrev pub case_45 : Switch
case_45 = (on 67 (st 2) ∷ on 78 (st 46) ∷ on 99 (st 2) ∷ [], st 1)

abbrev pub case_46 : Switch
case_46 = (on 67 (st 2) ∷ on 83 (st 17) ∷ on 99 (st 2) ∷ [], st 1)
