-- ===== src/HtmlContent/Scripts.antt =====
-- main/html_content.cpp: the script of the configuration page, before and behind its table of bands.
use esp32_band_decoder.Base.{[], ◌∷◌}
use esp32_band_decoder.HtmlContent.Lines.{lines_of}
use esp32_band_decoder.Text.{Bytes}

unfoldable pub before_frequencies : Bytes
unfolding lines_of
before_frequencies = lines_of (
    "" ∷ "    <script>" ∷ "    async function submitConfig(event) {"
    ∷ "        event.preventDefault();"
    ∷ "        const form = document.getElementById('configForm');"
    ∷ "        const formData = new FormData(form);" ∷ "        "
    ∷ "        // Convert form data to JSON structure" ∷ "        const config = {"
    ∷ "            auto_mode: formData.get('auto_mode') === 'on',"
    ∷ "            num_bands: parseInt(formData.get('num_bands')),"
    ∷ "            num_antenna_ports: parseInt(formData.get('num_antenna_ports')),"
    ∷ "            tcp_host: formData.get('tcp_host'),"
    ∷ "            tcp_port: parseInt(formData.get('tcp_port')),"
    ∷ "            uart_baud_rate: parseInt(formData.get('uart_baud_rate')),"
    ∷ "            uart_parity: parseInt(formData.get('uart_parity')),"
    ∷ "            uart_stop_bits: parseInt(formData.get('uart_stop_bits')),"
    ∷ "            uart_flow_ctrl: parseInt(formData.get('uart_flow_ctrl')),"
    ∷ "            bands: []" ∷ "        };" ∷ "        " ∷ "        // Process bands"
    ∷ "        for (let i = 0; i < config.num_bands; i++) {" ∷ "            const band = {"
    ∷ "                description: formData.get(`band_${i}`),"
    ∷ "                antenna_ports: []" ∷ "            };" ∷ "            "
    ∷ "            // Process antenna ports"
    ∷ "            for (let j = 0; j < config.num_antenna_ports; j++) {"
    ∷ "                band.antenna_ports[j] = formData.get(`a${i}_${j}`) === '1';"
    ∷ "            }" ∷ "            config.bands.push(band);" ∷ "        }" ∷ "        "
    ∷ "        try {" ∷ "            const response = await fetch('/config', {"
    ∷ "                method: 'POST'," ∷ "                headers: {"
    ∷ "                    'Content-Type': 'application/json'" ∷ "                },"
    ∷ "                body: JSON.stringify(config)" ∷ "            });" ∷ "            "
    ∷ "            if (response.ok) {" ∷ "                window.location.href = '/';"
    ∷ "            } else {" ∷ "                alert('Failed to update configuration');"
    ∷ "            }" ∷ "        } catch (error) {" ∷ "            console.error('Error:', error);"
    ∷ "            alert('Failed to update configuration');" ∷ "        }" ∷ "    }" ∷ "    "
    ∷ "    // Create a mapping of band frequencies" ∷ "    const bandFrequencies = {" ∷ "" ∷ [])

unfoldable pub behind_frequencies : Bytes
unfolding lines_of
behind_frequencies = lines_of (
    "" ∷ "    };" ∷ "" ∷ "    function updateFrequencies(selectElement, rowIndex) {"
    ∷ "        const selectedBand = selectElement.value;"
    ∷ "        const frequencies = bandFrequencies[selectedBand];"
    ∷ "        const row = selectElement.closest('tr');" ∷ "        const cells = row.cells;"
    ∷ "        " ∷ "        // Update start and end frequency cells"
    ∷ "        cells[1].textContent = frequencies.start;"
    ∷ "        cells[2].textContent = frequencies.end;" ∷ "    }" ∷ ""
    ∷ "    function updateAntennaPorts() {"
    ∷ "        const numPorts = parseInt(document.getElementById('num_antenna_ports').value);"
    ∷ "        const rows = document.querySelectorAll('tbody tr');" ∷ "        "
    ∷ "        rows.forEach((row) => {"
    ∷ "            const portCell = row.cells[3]; // Antenna ports cell"
    ∷ "            const bandSelect = row.querySelector('select[name^=\"band_\"]');"
    ∷ "            const bandIndex = bandSelect.name.split('_')[1];" ∷ "            "
    ∷ "            // Store existing checkbox states"
    ∷ "            const existingStates = Array.from(portCell.querySelectorAll('input[type=\"checkbox\"]'))"
    ∷ "                .map(cb => cb.checked);" ∷ "            " ∷ "            let portsHtml = '';"
    ∷ "            for (let j = 0; j < numPorts; j++) {"
    ∷ "                const isChecked = existingStates[j] ? 'checked' : '';"
    ∷ "                portsHtml += `<input type=\"checkbox\" name=\"a${bandIndex}_${j}\" value=\"1\" ${isChecked}>${j + 1} `;"
    ∷ "            }" ∷ "            " ∷ "            portCell.innerHTML = portsHtml;"
    ∷ "        });" ∷ "    }" ∷ "" ∷ "    function debounce(func, wait) {" ∷ "        let timeout;"
    ∷ "        return function executedFunction(...args) {" ∷ "            const later = () => {"
    ∷ "                clearTimeout(timeout);" ∷ "                func(...args);" ∷ "            };"
    ∷ "            clearTimeout(timeout);" ∷ "            timeout = setTimeout(later, wait);"
    ∷ "        };" ∷ "    }" ∷ "" ∷ "    function updateBandRows() {"
    ∷ "        const numBands = parseInt(document.getElementById('num_bands').value);"
    ∷ "        const numPorts = parseInt(document.getElementById('num_antenna_ports').value);"
    ∷ "        const tbody = document.querySelector('tbody');" ∷ "        "
    ∷ "        // Store existing configurations before updating"
    ∷ "        const existingConfig = [];"
    ∷ "        const existingRows = tbody.querySelectorAll('tr');"
    ∷ "        existingRows.forEach((row, i) => {"
    ∷ "            const bandSelect = row.querySelector(`select[name=\"band_${i}\"]`);"
    ∷ "            const checkboxes = row.querySelectorAll('input[type=\"checkbox\"]');"
    ∷ "            existingConfig[i] = {"
    ∷ "                band: bandSelect ? bandSelect.value : null,"
    ∷ "                ports: Array.from(checkboxes).map(cb => cb.checked)" ∷ "            };"
    ∷ "        });" ∷ "        " ∷ "        // Create a document fragment to batch DOM updates"
    ∷ "        const fragment = document.createDocumentFragment();" ∷ "        "
    ∷ "        // Generate all rows at once" ∷ "        for (let i = 0; i < numBands; i++) {"
    ∷ "            const row = document.createElement('tr');" ∷ "            "
    ∷ "            // Band selection cell"
    ∷ "            const bandCell = document.createElement('td');"
    ∷ "            const bandSelect = document.createElement('select');"
    ∷ "            bandSelect.name = `band_${i}`;"
    ∷ "            bandSelect.setAttribute('onchange', `updateFrequencies(this, ${i})`);"
    ∷ "            " ∷ "            // Create band options HTML string once"
    ∷ "            let optionsHtml = '';"
    ∷ "            Object.entries(bandFrequencies).forEach(([band, freq]) => {"
    ∷ "                optionsHtml += `<option value=\"${band}\">${band}</option>`;"
    ∷ "            });" ∷ "            bandSelect.innerHTML = optionsHtml;" ∷ "            "
    ∷ "            // If we have existing config for this row, use it"
    ∷ "            if (existingConfig[i] && existingConfig[i].band) {"
    ∷ "                bandSelect.value = existingConfig[i].band;" ∷ "            } else {"
    ∷ "                // Otherwise use default band based on index"
    ∷ "                const defaultBand = Object.entries(bandFrequencies)[i % Object.keys(bandFrequencies).length];"
    ∷ "                bandSelect.value = defaultBand[0];" ∷ "            }" ∷ "            "
    ∷ "            bandCell.appendChild(bandSelect);" ∷ "            "
    ∷ "            // Frequency cells"
    ∷ "            const startFreqCell = document.createElement('td');"
    ∷ "            const endFreqCell = document.createElement('td');"
    ∷ "            const selectedBand = bandFrequencies[bandSelect.value];"
    ∷ "            startFreqCell.textContent = selectedBand.start;"
    ∷ "            endFreqCell.textContent = selectedBand.end;" ∷ "            "
    ∷ "            // Antenna ports cell - create HTML string instead of multiple DOM operations"
    ∷ "            const portsCell = document.createElement('td');"
    ∷ "            let portsHtml = '';" ∷ "            for (let j = 0; j < numPorts; j++) {"
    ∷ "                const isChecked = existingConfig[i] && existingConfig[i].ports[j] ? 'checked' : '';"
    ∷ "                portsHtml += `<input type=\"checkbox\" name=\"a${i}_${j}\" value=\"1\" ${isChecked}>${j + 1} `;"
    ∷ "            }" ∷ "            portsCell.innerHTML = portsHtml;" ∷ "            "
    ∷ "            row.appendChild(bandCell);" ∷ "            row.appendChild(startFreqCell);"
    ∷ "            row.appendChild(endFreqCell);" ∷ "            row.appendChild(portsCell);"
    ∷ "            fragment.appendChild(row);" ∷ "        }" ∷ "        "
    ∷ "        // Clear and update tbody in one operation" ∷ "        tbody.innerHTML = '';"
    ∷ "        tbody.appendChild(fragment);" ∷ "    }" ∷ ""
    ∷ "    // Add event listeners with debouncing"
    ∷ "    document.getElementById('num_antenna_ports').addEventListener('change', debounce(updateAntennaPorts, 250));"
    ∷ "    document.getElementById('num_bands').addEventListener('change', debounce(updateBandRows, 250));"
    ∷ "    </script>" ∷ [])
